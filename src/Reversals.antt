-- ===== src/Reversals.antt =====
-- Reversals of payments. Here the binding of a reversal to its payment (app/reversal_controls.py); the
-- modules below have the endpoints and callbacks (app/routers/reversals.py) and the worker
-- (app/reversals.py).
pub mod Bound
pub mod Rows
pub mod Request
pub mod Claim
pub mod Worker
pub mod Query
pub mod Delivery
pub mod Settle
pub mod Callback
pub mod Matching
pub mod Life
pub mod Advance
pub mod Approve
pub mod Submit
pub mod Verdict
pub mod Answer
pub mod Reach
pub mod Create
pub mod Again
pub mod Invariant
pub mod Sent
pub mod Once
pub mod Review
pub mod Payments
pub mod Confirm
pub mod Success
use lynxpay.Prelude.{
  ℕ, ◌%◌, Bool, true, false, not, ◌&&◌, ◌||◌, ◌==◌, text_eq, truthy, any, String, Option, none,
  some, List, if◌then◌else◌,
}
use lynxpay.Model.{PaymentStatus, same_status, Purpose, Payment, Binding, ReversalRequest}

-- The reasons that the texts give.
pub data BindingError : Type 0 where
  no_payment wrong_status is_verification no_receipt amount_changed currency_changed : BindingError
  not_whole no_binding binding_changed : BindingError

abbrev or_empty : Option String → String
or_empty none = ""
or_empty (some text) = text

abbrev pub payment_reversal_binding : Payment → Binding
payment_reversal_binding payment = record {
  organization_id = payment.organization_id;
  merchant_account_id = payment.merchant_account_id;
  payment_id = payment.id;
  amount = payment.amount;
  currency = payment.currency;
  mpesa_receipt_number = or_empty payment.mpesa_receipt_number;
}

-- No key of the dictionary is a mismatch.
abbrev pub same_binding : Binding → Binding → Bool
same_binding a b =
    a.organization_id == b.organization_id
    && a.merchant_account_id == b.merchant_account_id
    && a.payment_id == b.payment_id
    && a.amount == b.amount
    && text_eq a.currency b.currency
    && text_eq a.mpesa_receipt_number b.mpesa_receipt_number

abbrev pub is_payment : Purpose → Bool
is_payment Purpose.payment = true
is_payment Purpose.merchant_verification = false

binding_error : Option Binding → Payment → Option BindingError
binding_error none payment = some BindingError.no_binding
binding_error (some binding) payment =
    if same_binding binding (payment_reversal_binding payment)
    then none
    else some BindingError.binding_changed

-- `eligible` is `eligible_statuses or {"success"}`; an amount in cents is whole where 100 divides it.
unfoldable pub reversal_binding_error :
    List PaymentStatus → ReversalRequest → Option Payment → Option BindingError
unfolding binding_error
reversal_binding_error eligible reversal none = some BindingError.no_payment
reversal_binding_error eligible reversal (some payment) =
    if not (any (same_status payment.status) eligible)
    then some BindingError.wrong_status
    else if not (is_payment payment.purpose)
    then some BindingError.is_verification
    else if not (truthy payment.mpesa_receipt_number)
    then some BindingError.no_receipt
    else if not (payment.amount == reversal.amount)
    then some BindingError.amount_changed
    else if not (text_eq payment.currency reversal.currency) || not (text_eq payment.currency "KES")
    then some BindingError.currency_changed
    else if not (reversal.amount % 100 == 0)
    then some BindingError.not_whole
    else binding_error reversal.binding payment
