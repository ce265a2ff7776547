-- ===== src/Reversals/Payments.antt =====
-- What a callback of a reversal makes of the payments and of the ledger.
use lynxpay.Reversals.Bound.{reversal_binding_iff, IsReversible}
use lynxpay.Reversals.{reversal_binding_error, BindingError}
use lynxpay.Reversals.Rows.{success_or_reversed, original_payment}
use lynxpay.Reversals.Delivery.{ResultFields}
use lynxpay.Service.Coupling.{transition_and_record-ok}
use lynxpay.Service.Recorded.{move_entry}
use lynxpay.Service.{
  audit, ledger, record_transition, transition_and_record, save_payment, queue_webhooks,
}
use lynxpay.Model.{
  ReversalRequest, CallbackType, EventType, same_status, Settings, PaymentStatus, Session, Payment,
}
use lynxpay.Reversals.Settle.{
  provider_confirms_reversal, confirm_reversal, succeeded_with, status_or_unknown, Settled,
  settle_reversal, status_inconclusive, confirmed_with, confirm_bound, result_or_failure,
  queue_moved, reverse_payment,
}
use lynxpay.Prelude.{
  Result-cases, Ensures-map, ℕ, Bool, true, false, ◌≡◌, ◌⊎◌, inl, inr, refl, Option, none, some,
  ◌∷◌, Ensures, first, arith, Result, ok, err, Bool-cases,
}

abbrev pub reversed_payment : Payment → Payment
reversed_payment p = record p { status = PaymentStatus.reversed }

-- The payments and the ledger are as they were.
abbrev pub IsUntouched : Session → Session → Type 0
IsUntouched db d = (d.payments ≡ db.payments) × (d.ledger ≡ db.ledger)

-- One successful payment has become reversed, with its ledger entry.
abbrev pub IsReversedIn : Session → Payment → Session → Type 0
IsReversedIn db p d =
    (p.status ≡ PaymentStatus.success)
    × (d.payments ≡ (save_payment (reversed_payment p) db).payments)
    × (d.ledger ≡ move_entry p (reversed_payment p) ∷ db.ledger)

pub reversed-IsReversedIn :
    (settings : Settings) (now : ℕ) (p : Payment) (db : Session)
    → same_status p.status PaymentStatus.success ≡ true
    → Ensures (IsReversedIn db p) (
        queue_moved settings now (
          transition_and_record now PaymentStatus.reversed
            (EventType.payment PaymentStatus.reversed)
            db
            p))
unfolding queue_moved queue_webhooks save_payment
reversed-IsReversedIn settings now p db h =
    elim (Result-cases (
      transition_and_record now PaymentStatus.reversed (EventType.payment PaymentStatus.reversed) db
        p)) [
          | inr (e, q) ↦ rw q tt
          | inl (w, q) ↦
              rw
                (
                  q,
                  (transition_and_record-ok now PaymentStatus.reversed
                      (EventType.payment PaymentStatus.reversed) db p q).1,
                )
                (unfold record_transition ledger audit in (ground (arith, h), refl, refl))
        ]

reverse_payment-IsReversedIn :
    (settings : Settings) (now : ℕ) (p : Payment) (db : Session)
    → Ensures (λ d. IsUntouched db d ⊎ IsReversedIn db p d) (reverse_payment settings now p db)
unfolding reverse_payment
reverse_payment-IsReversedIn settings now p db =
    elim (Bool-cases (same_status p.status PaymentStatus.success)) [
      | inr n ↦ rw n (inl (refl, refl))
      | inl y ↦ rw y (
          Ensures-map (IsReversedIn db p) (λ d. IsUntouched db d ⊎ IsReversedIn db p d)
            (λ d h. inr h) _ (reversed-IsReversedIn settings now p db y))
    ]

-- What a callback does to the payments, through the reversal `r`.
abbrev pub IsConfirmedBy :
    CallbackType → ResultFields → ReversalRequest → Session → Session → Type 0
IsConfirmedBy kind fields r db d =
    (p : Payment) × (first (original_payment r) db.payments ≡ some p)
    × (provider_confirms_reversal kind fields ≡ true)
    × IsReversible success_or_reversed r p
    × IsReversedIn db p d

abbrev pub Pays : ℕ → CallbackType → ResultFields → ReversalRequest → Session → Settled → Type 0
Pays now kind fields r db s =
    IsUntouched db s.db
    ⊎ (IsConfirmedBy kind fields r db s.db × (s.reversal ≡ succeeded_with now kind fields r))

module _ (settings : Settings) (now : ℕ) (fields : ResultFields) (r : ReversalRequest)
    (db : Session) where
  confirmed-Pays :
      (kind : CallbackType) (p : Payment) (reversed : Result Session)
      → first (original_payment r) db.payments ≡ some p
      → provider_confirms_reversal kind fields ≡ true
      → IsReversible success_or_reversed r p
      → Ensures (λ d. IsUntouched db d ⊎ IsReversedIn db p d) reversed
      → Ensures (Pays now kind fields r db) (confirmed_with now kind fields r reversed)
  unfolding confirmed_with
  confirmed-Pays kind p (err e) stored confirms h w = tt
  confirmed-Pays kind p (ok d) stored confirms h (inl same) = inl same
  confirmed-Pays kind p (ok d) stored confirms h (inr moved) =
      inr ((p, stored, confirms, h, moved), refl)

  bound-Pays :
      (kind : CallbackType) (bound : Option BindingError) (payment : Option Payment)
      → first (original_payment r) db.payments ≡ payment
      → provider_confirms_reversal kind fields ≡ true
      → reversal_binding_error success_or_reversed r payment ≡ bound
      → Ensures
          (Pays now kind fields r db)
          (confirm_bound settings now kind fields r db bound payment)
  unfolding confirm_bound
  bound-Pays kind (some error) payment stored confirms e = inl (refl, refl)
  bound-Pays kind none none stored confirms e = tt
  bound-Pays kind none (some p) stored confirms e =
      confirmed-Pays kind p _ stored confirms ((reversal_binding_iff success_or_reversed r p).0 e)
        (reverse_payment-IsReversedIn settings now p db)

  result-Pays :
      (confirmed : Bool)
      → provider_confirms_reversal CallbackType.result fields ≡ confirmed
      → Ensures
          (Pays now CallbackType.result fields r db)
          (result_or_failure settings now fields r db confirmed)
  unfolding result_or_failure confirm_reversal
  result-Pays true confirms = bound-Pays CallbackType.result _ _ refl confirms refl
  result-Pays false confirms = inl (refl, refl)

  status-Pays :
      (confirmed : Bool)
      → provider_confirms_reversal CallbackType.status_result fields ≡ confirmed
      → Ensures
          (Pays now CallbackType.status_result fields r db)
          (status_or_unknown settings now fields r db confirmed)
  unfolding status_or_unknown confirm_reversal
  status-Pays true confirms = bound-Pays CallbackType.status_result _ _ refl confirms refl
  status-Pays false confirms = inl (refl, refl)

  inconclusive-Pays :
      (zero_code : Bool)
      → Ensures
          (Pays now CallbackType.status_result fields r db)
          (status_inconclusive settings now fields r db zero_code)
  unfolding status_inconclusive
  inconclusive-Pays true = status-Pays _ refl
  inconclusive-Pays false = inl (refl, refl)

  pub settle-Pays :
      (kind : CallbackType)
      → Ensures (Pays now kind fields r db) (settle_reversal settings now kind fields r db)
  unfolding settle_reversal
  settle-Pays CallbackType.timeout = inl (refl, refl)
  settle-Pays CallbackType.status_timeout = inl (refl, refl)
  settle-Pays CallbackType.result = result-Pays _ refl
  settle-Pays CallbackType.status_result = inconclusive-Pays _
