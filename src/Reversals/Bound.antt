-- ===== src/Reversals/Bound.antt =====
-- What a reversal without a binding error is.
use lynxpay.Prelude.{
  refl, subst, sym, ap, inl, inr, Bool-cases, ◌%◌, true, ◌≡◌, ◌↔◌, none, some, any, truthy, List,
  Option, arith, eq_iff,
}
use lynxpay.Model.{PaymentStatus, same_status, Purpose, Payment, Binding, ReversalRequest}
use lynxpay.Reversals.{
  payment_reversal_binding, same_binding, binding_error, reversal_binding_error,
}

-- A payment with its money received in whole shillings, and a reversal of all of it.
pub record IsReversible (eligible : List PaymentStatus) (r : ReversalRequest) (p : Payment)
    : Type 0 where
  pub status : any (same_status p.status) eligible ≡ true
  pub purpose : p.purpose ≡ Purpose.payment
  pub receipt : truthy p.mpesa_receipt_number ≡ true
  pub amount : r.amount ≡ p.amount
  pub whole : r.amount % 100 ≡ 0
  pub currency : (r.currency ≡ "KES") × (p.currency ≡ "KES")
  pub bound : r.binding ≡ some (payment_reversal_binding p)

same_binding-eq : (a b : Binding) → same_binding a b ≡ true → a ≡ b
same_binding-eq a b h =
    ground
      (arith, h, eq_iff a.currency b.currency, eq_iff a.mpesa_receipt_number b.mpesa_receipt_number)

same_binding_self : (a : Binding) → same_binding a a ≡ true
same_binding_self a =
    ground
      (arith, eq_iff a.currency a.currency, eq_iff a.mpesa_receipt_number a.mpesa_receipt_number)

bound-of :
    (b : Option Binding) (p : Payment)
    → binding_error b p ≡ none
    → b ≡ some (payment_reversal_binding p)
unfolding binding_error
bound-of none p h = absurd (cc)
bound-of (some b) p h = elim (Bool-cases (same_binding b (payment_reversal_binding p))) [
  | inl y ↦ ap some (same_binding-eq b (payment_reversal_binding p) y)
  | inr n ↦ absurd (ground (arith, h, n))
]

bound_passes : (p : Payment) → binding_error (some (payment_reversal_binding p)) p ≡ none
unfolding binding_error
bound_passes p = rw (same_binding_self (payment_reversal_binding p)) refl

-- A check that finds nothing got to its end.
checked :
    (eligible : List PaymentStatus) (r : ReversalRequest) (p : Payment)
    → reversal_binding_error eligible r (some p) ≡ none
    → (any (same_status p.status) eligible ≡ true)
      × (p.purpose ≡ Purpose.payment)
      × (truthy p.mpesa_receipt_number ≡ true)
      × (r.amount ≡ p.amount)
      × (r.amount % 100 ≡ 0)
      × ((r.currency ≡ "KES") × (p.currency ≡ "KES"))
      × (binding_error r.binding p ≡ none)
unfolding reversal_binding_error
checked eligible r p h = ground (arith, h, eq_iff p.currency r.currency, eq_iff p.currency "KES")

reversible_passes :
    (eligible : List PaymentStatus) (r : ReversalRequest) (p : Payment)
    → IsReversible eligible r p
    → binding_error r.binding p ≡ none
    → reversal_binding_error eligible r (some p) ≡ none
unfolding reversal_binding_error
reversible_passes eligible r p h b = ground (
  arith,
  h.status,
  h.purpose,
  h.receipt,
  h.amount,
  h.whole,
  h.currency,
  b,
  eq_iff p.currency r.currency,
  eq_iff p.currency "KES",
)

-- The check finds nothing against a payment exactly where the payment is of an eligible status, is
-- no merchant verification, has its receipt, and the reversal is bound to it as it stands: the
-- whole amount, in whole shillings, and the same owner, currency and receipt.
pub reversal_binding_iff :
    (eligible : List PaymentStatus) (r : ReversalRequest) (p : Payment)
    → (reversal_binding_error eligible r (some p) ≡ none) ↔ IsReversible eligible r p
reversal_binding_iff eligible r p = (
  λ h.
      let (status, purpose, receipt, amount, whole, currency, last) = checked eligible r p h in
      record {
        status = status;
        purpose = purpose;
        receipt = receipt;
        amount = amount;
        whole = whole;
        currency = currency;
        bound = bound-of r.binding p last;
      },
  λ (h : IsReversible eligible r p).
      reversible_passes eligible r p h
        (subst (λ b. binding_error b p ≡ none) (sym h.bound) (bound_passes p)),
)
