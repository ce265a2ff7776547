-- ===== src/Callbacks/Outcome.antt =====
-- The `try` statement of `receive_mpesa_callback`, its branches put together.
use lynxpay.Prelude.{
  ℕ, String, Bool, true, false, not, ◌&&◌, ◌==◌, truthy, same_text, Option, none, some, first,
  Result, ok, err, http, invalid_transition, attribute_error, index_error, multiple_results,
  if◌then◌else◌,
}
use lynxpay.Model.{
  PaymentStatus, same_status, ReceiptStatus, ReviewStatus, ReviewReason, Acceptance, AttemptStatus,
  Processing, EventType, Action, MerchantAccount, Payment, Session, Library,
}
use lynxpay.ProviderCodes.{ProviderOutcome, classify_mpesa_result}
use lynxpay.Service.{CallbackFields, callback_matches_payment, transition_and_record}
use lynxpay.Callbacks.Duplicates.{is_zero}
use lynxpay.Callbacks.Apply.{
  Work, set_attempt, conflict, repeated_receipt, enrich_success, verified_success,
  unverified_success,
}

-- `duplicate_receipt`: another payment of the merchant that has the receipt.
abbrev pub receipt_owner : MerchantAccount → CallbackFields → Payment → Payment → Bool
receipt_owner merchant fields payment p =
    p.merchant_account_id == merchant.id
    && same_text p.mpesa_receipt_number fields.mpesa_receipt_number
    && not (p.id == payment.id)

duplicate_receipt : MerchantAccount → CallbackFields → Work → Option Payment
duplicate_receipt merchant fields w =
    if truthy fields.mpesa_receipt_number
    then first (receipt_owner merchant fields w.payment) w.db.payments
    else none

-- The branches for a payment whose status is `success`.
on_success : Library → MerchantAccount → CallbackFields → Work → Result Work
on_success lib merchant fields w =
    if same_text w.payment.mpesa_receipt_number fields.mpesa_receipt_number
    then repeated_receipt merchant w
    else if truthy w.payment.mpesa_receipt_number
    then ok (
        conflict merchant ReviewReason.conflicting_success_receipt Action.callback_conflict_detected
          w)
    else ok (enrich_success lib merchant fields w)

-- The branch for any other payment.
on_open : Library → ℕ → MerchantAccount → CallbackFields → Work → Result Work
on_open lib now merchant fields w = elim (callback_matches_payment lib w.payment fields) [
  | none ↦ verified_success now fields w
  | some reason ↦ unverified_success now merchant reason w
]

-- `if fields["result_code"] == "0": …`
unfoldable pub apply_success : Library → ℕ → MerchantAccount → CallbackFields → Work → Result Work
unfolding duplicate_receipt on_success on_open
apply_success lib now merchant fields w = elim (duplicate_receipt merchant fields w) [
  | some other ↦ ok (
      conflict merchant ReviewReason.duplicate_mpesa_receipt Action.duplicate_mpesa_receipt_detected
        w)
  | none ↦
      if same_status w.payment.status PaymentStatus.success
      then on_success lib merchant fields w
      else on_open lib now merchant fields w
]

-- `target`: a timeout on an unknown payment counts as a failure.
unfoldable pub failure_target : PaymentStatus → PaymentStatus → PaymentStatus
failure_target PaymentStatus.unknown PaymentStatus.timeout = PaymentStatus.failed
failure_target status target = target

-- The move to the target, left out where the payment stays unknown.
unfoldable pub move_to : ℕ → PaymentStatus → Session → Payment → Result (Session × Payment)
move_to now target db payment =
    if same_status target PaymentStatus.unknown && same_status payment.status PaymentStatus.unknown
    then ok (db, payment)
    else transition_and_record now target (EventType.payment target) db payment

abbrev is_settled_failure : PaymentStatus → Bool
is_settled_failure PaymentStatus.failed = true
is_settled_failure PaymentStatus.timeout = true
is_settled_failure _ = false

abbrev is_unknown : PaymentStatus → Bool
is_unknown PaymentStatus.unknown = true
is_unknown _ = false

-- The columns that a classified result writes; the status query of app/reconciliation.py writes
-- the same ones.
unfoldable pub write_result :
    ℕ → PaymentStatus → ProviderOutcome → Option String → Option String → Payment → Payment
write_result now target classified code description payment = record payment {
  result_code = code;
  result_description = description;
  failed_at = if is_settled_failure target then some now else none;
  provider_acceptance_state = Acceptance.accepted;
  receipt_status =
      if is_unknown target then ReceiptStatus.missing else ReceiptStatus.not_applicable;
  review_status = if classified.needs_review then ReviewStatus.needs_review else ReviewStatus.none;
  review_reason =
      if classified.needs_review
      then some (ReviewReason.provider_result classified.category)
      else none;
}

abbrev pub attempt_result : PaymentStatus → AttemptStatus
attempt_result PaymentStatus.unknown = AttemptStatus.uncertain
attempt_result target = AttemptStatus.as_payment target

-- The `else` of the `try` block: any result code but "0".
unfoldable pub apply_failure : ℕ → CallbackFields → Work → Result Work
unfolding write_result
apply_failure now fields w =
    let classified = classify_mpesa_result fields.result_code in
    let target = failure_target w.payment.status classified.target in
    elim (move_to now target w.db w.payment) [
      | err e ↦ err e
      | ok (db, payment) ↦ ok (record w {
        db = db;
        payment =
            write_result now target classified fields.result_code fields.result_description payment;
        attempt = set_attempt (attempt_result target) w.attempt;
        callback = record w.callback {
          processing_status =
              if is_unknown target
              then Processing.processed_unknown
              else Processing.processed_failure;
        };
        event = some (EventType.payment target);
      })
    ]

-- The `try` statement: a blocked transition becomes a conflict, other errors pass.
unfoldable pub apply_callback : Library → ℕ → MerchantAccount → CallbackFields → Work → Result Work
apply_callback lib now merchant fields w =
    elim (if is_zero fields.result_code
      then apply_success lib now merchant fields w
      else apply_failure now fields w) [
        | ok done ↦ ok done
        | err invalid_transition ↦ ok (
            conflict merchant ReviewReason.callback_transition_conflict
              Action.callback_transition_blocked w)
        | err (http code) ↦ err (http code)
        | err attribute_error ↦ err attribute_error
        | err index_error ↦ err index_error
        | err multiple_results ↦ err multiple_results
      ]
