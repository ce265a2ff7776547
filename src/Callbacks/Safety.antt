-- ===== src/Callbacks/Safety.antt =====
-- What a callback can and cannot do to a payment.
use lynxpay.Prelude.{false, ℕ, true, ◌≡◌, ◌≢◌, ◌⊎◌, Option, none, some, ok, arith, String}
use lynxpay.Model.{
  PaymentStatus, MerchantAccount, Payment, Library, Settings, Session, IsKeyed, Rows,
}
use lynxpay.StateMachine.{transition_payment}
use lynxpay.StateMachine.Reach.{IsSettled}
use lynxpay.ProviderCodes.{classify_mpesa_result}
use lynxpay.Service.{CallbackFields, transition_and_record, callback_matches_payment}
use lynxpay.Callbacks.{
  Work, is_zero, conflict, repeated_receipt, enrich_success, verified_success, unverified_success,
  apply_success, apply_failure, failure_target, move_to, apply_callback, CallbackRequest,
  receive_mpesa_callback,
}
use lynxpay.Callbacks.Lift.{receive-Moved}

-- What a callback does to a payment: its key, amount and phone stay, a settled payment keeps its
-- status, and a payment becomes a success only on a result code of "0" with the evidence.
pub record CallbackMove (lib : Library) (fields : CallbackFields) (p p' : Payment) : Type 0 where
  pub same_key : p'.id ≡ p.id
  pub same_amount : p'.amount ≡ p.amount
  pub settled : IsSettled p.status → p'.status ≡ p.status
  pub proven :
      p'.status ≡ PaymentStatus.success
      → p.status ≢ PaymentStatus.success
      → (is_zero fields.result_code ≡ true)
        × (callback_matches_payment lib p fields ≡ none)
        × (p'.mpesa_receipt_number ≡ fields.mpesa_receipt_number)

module _ (lib : Library) (now : ℕ) (fields : CallbackFields) (merchant : MerchantAccount) where
  success_move :
      (w w' : Work)
      → is_zero fields.result_code ≡ true
      → apply_success lib now merchant fields w ≡ ok w'
      → CallbackMove lib fields w.payment w'.payment
  unfolding apply_success conflict repeated_receipt enrich_success verified_success
      unverified_success transition_and_record transition_payment
  success_move w w' z h = ground arith

  classify_failure :
      (code : Option String)
      → is_zero code ≡ false
      → let t = (classify_mpesa_result code).target in
        (t ≡ PaymentStatus.failed) ⊎ (t ≡ PaymentStatus.timeout) ⊎ (t ≡ PaymentStatus.unknown)
  unfolding classify_mpesa_result
  classify_failure none h = ground arith
  classify_failure (some code) h = ground arith

  failure_move :
      (w w' : Work)
      → is_zero fields.result_code ≡ false
      → apply_failure now fields w ≡ ok w'
      → CallbackMove lib fields w.payment w'.payment
  unfolding apply_failure failure_target move_to transition_and_record transition_payment
  failure_move w w' z h = ground (arith, classify_failure fields.result_code z)

  apply_move :
      (w w' : Work)
      → apply_callback lib now merchant fields w ≡ ok w'
      → CallbackMove lib fields w.payment w'.payment
  unfolding apply_callback conflict
  apply_move w w' h = ground (arith, success_move w w', failure_move w w')

CallbackMove-refl :
    (lib : Library) (fields : CallbackFields) (p : Payment) → CallbackMove lib fields p p
CallbackMove-refl lib fields p = ground arith

-- Over tables with distinct keys: after any callback every payment is in its place with its key and
-- its amount; one that was a success or reversed has its status; and one that became a success did
-- so on the result code "0", with fields that match it and the callback's receipt.
pub receive_moves :
    (lib : Library) (settings : Settings) (now merchant_id : ℕ) (req : CallbackRequest)
    (db : Session)
    → IsKeyed db.payments
    → Rows
        (CallbackMove lib req.fields)
        db.payments
        (receive_mpesa_callback lib settings now merchant_id req db).1.payments
receive_moves lib settings now merchant_id req db keyed =
    receive-Moved (CallbackMove lib) (CallbackMove-refl lib) lib settings now req
      (λ merchant w w' h. apply_move lib now req.fields merchant w w' h) merchant_id db keyed
