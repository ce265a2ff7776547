-- ===== src/Reversals/Success.antt =====
-- A reversal does not succeed without its payment.
use lynxpay.Reversals.Payments.{reversed-IsReversedIn, reversed_payment, IsReversedIn}
use lynxpay.Reversals.{reversal_binding_error, BindingError}
use lynxpay.Reversals.Rows.{success_or_reversed, original_payment}
use lynxpay.Reversals.Bound.{reversal_binding_iff, IsReversible}
use lynxpay.Reversals.Delivery.{ResultFields}
use lynxpay.Reversals.Settle.{
  confirmed_with, confirm_reversal, status_or_unknown, reverse_payment, status_inconclusive,
  confirm_bound, result_or_failure, Settled, settle_reversal,
}
use lynxpay.Model.{
  same_status, PaymentStatus, ReversalStatus, Payment, Session, CallbackType, Settings,
  ReversalRequest,
}
use lynxpay.Service.{save_payment}
use lynxpay.Prelude.{
  if_split, first-update, first_sound, Ensures-map, ℕ, Bool, true, false, ◌≡◌, ◌==◌, ap, ◌∙◌, refl,
  Option, none, some, Ensures, first, arith, Result, ok, err,
}

-- The payment of a reversal is reversed.
abbrev pub IsReversedFor : ReversalRequest → Session → Type 0
IsReversedFor r db =
    (p : Payment) × (first (original_payment r) db.payments ≡ some p)
    × (p.status ≡ PaymentStatus.reversed)

abbrev pub Succeeds : ReversalRequest → Settled → Type 0
Succeeds r s = s.reversal.status ≡ ReversalStatus.succeeded → IsReversedFor r s.db

-- The payment that was found is found again, reversed.
reversed-found :
    (r : ReversalRequest) (p : Payment) (db d : Session)
    → first (original_payment r) db.payments ≡ some p
    → IsReversedIn db p d
    → IsReversedFor r d
unfolding save_payment
reversed-found r p db d found (success, rows, entries) = (
  reversed_payment p,
  ap (first (original_payment r)) rows
      ∙ first-update (original_payment r) (original_payment r) (λ row. row.id == p.id) p
          (reversed_payment p) db.payments (λ z h. h) found (ground arith)
          (first_sound (original_payment r) db.payments p found),
  refl,
)

other_than_success :
    (r : ReversalRequest) (p : Payment)
    → IsReversible success_or_reversed r p
    → same_status p.status PaymentStatus.success ≡ false
    → p.status ≡ PaymentStatus.reversed
other_than_success r p h n = ground (arith, h.status, n)

module _ (settings : Settings) (now : ℕ) (fields : ResultFields) (r : ReversalRequest)
    (db : Session) where
  reverse-IsReversedFor :
      (p : Payment)
      → first (original_payment r) db.payments ≡ some p
      → IsReversible success_or_reversed r p
      → Ensures (IsReversedFor r) (reverse_payment settings now p db)
  unfolding reverse_payment
  reverse-IsReversedFor p found h =
      if_split (Ensures (IsReversedFor r)) (same_status p.status PaymentStatus.success)
        (λ success.
          Ensures-map (IsReversedIn db p) (IsReversedFor r)
            (λ d moved. reversed-found r p db d found moved) _
            (reversed-IsReversedIn settings now p db success))
        (λ other. (p, found, other_than_success r p h other))

  bound-Succeeds :
      (kind : CallbackType) (bound : Option BindingError) (payment : Option Payment)
      → first (original_payment r) db.payments ≡ payment
      → reversal_binding_error success_or_reversed r payment ≡ bound
      → Ensures (Succeeds r) (confirm_bound settings now kind fields r db bound payment)
  unfolding confirm_bound
  bound-Succeeds kind (some error) payment found e = λ h. absurd (ground (arith, h))
  bound-Succeeds kind none none found e = tt
  bound-Succeeds kind none (some p) found e =
      confirmed _
        (reverse-IsReversedFor p found ((reversal_binding_iff success_or_reversed r p).0 e))
    where
      confirmed :
          (reversed : Result Session)
          → Ensures (IsReversedFor r) reversed
          → Ensures (Succeeds r) (confirmed_with now kind fields r reversed)
      confirmed (err e) h = unfold confirmed_with in tt
      confirmed (ok d) h = unfold confirmed_with in λ _. h

  result-Succeeds :
      (confirmed : Bool)
      → Ensures (Succeeds r) (result_or_failure settings now fields r db confirmed)
  unfolding result_or_failure confirm_reversal
  result-Succeeds true = bound-Succeeds CallbackType.result _ _ refl refl
  result-Succeeds false = λ h. absurd (ground (arith, h))

  status-Succeeds :
      (confirmed : Bool)
      → Ensures (Succeeds r) (status_or_unknown settings now fields r db confirmed)
  unfolding status_or_unknown confirm_reversal
  status-Succeeds true = bound-Succeeds CallbackType.status_result _ _ refl refl
  status-Succeeds false = λ h. absurd (ground (arith, h))

  inconclusive-Succeeds :
      (zero_code : Bool)
      → Ensures (Succeeds r) (status_inconclusive settings now fields r db zero_code)
  unfolding status_inconclusive
  inconclusive-Succeeds true = status-Succeeds _
  inconclusive-Succeeds false = λ h. absurd (ground (arith, h))

-- Whatever a callback brings for a reversal, where the code does not raise and makes the reversal
-- succeed, the payment of the reversal is reversed in the session that is committed with it.
pub settle-Succeeds :
    (settings : Settings) (now : ℕ) (kind : CallbackType) (fields : ResultFields)
    (r : ReversalRequest) (db : Session)
    → Ensures (Succeeds r) (settle_reversal settings now kind fields r db)
unfolding settle_reversal
settle-Succeeds settings now CallbackType.timeout fields r db = λ h. absurd (ground (arith, h))
settle-Succeeds settings now CallbackType.status_timeout fields r db =
    λ h. absurd (ground (arith, h))
settle-Succeeds settings now CallbackType.result fields r db =
    result-Succeeds settings now fields r db _
settle-Succeeds settings now CallbackType.status_result fields r db =
    inconclusive-Succeeds settings now fields r db _
