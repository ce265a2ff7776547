-- ===== src/Stk/Retry.antt =====
-- `retry_payment`: the guards, the payment back to `pending` with a new attempt, and the submission.
use lynxpay.Prelude.{
  ℕ, ◌+◌, Bool, true, false, not, ◌&&◌, ◌||◌, ◌==◌, truthy, Option, none, some, first, select,
  length, Result, ok, err, http, ◌>>=◌, ◌>>◌, raise_if,
}
use lynxpay.Model.{
  PaymentStatus, ReceiptStatus, ReviewStatus, Acceptance, AttemptStatus, AttemptType, Action,
  MerchantAccount, DarajaCredential, Payment, PaymentAttempt, Session, Settings,
}
use lynxpay.Service.{audit, save_payment, active_credential, begin_retry_and_record}
use lynxpay.Stk.Access.{Principal, scoped_merchant, may_see_payment}
use lynxpay.Stk.Submit.{StkAnswer, StkWork, submit_stk_attempt}
use lynxpay.Stk.Create.{eligible, new_attempt, insert_attempt}

abbrev is_retryable : PaymentStatus → Bool
is_retryable PaymentStatus.failed = true
is_retryable PaymentStatus.timeout = true
is_retryable PaymentStatus.unknown = true
is_retryable _ = false

abbrev has_receipt : ReceiptStatus → Bool
has_receipt ReceiptStatus.present = true
has_receipt ReceiptStatus.enriched_later = true
has_receipt _ = false

abbrev is_rejected : Acceptance → Bool
is_rejected Acceptance.rejected = true
is_rejected _ = false

abbrev is_failed : PaymentStatus → Bool
is_failed PaymentStatus.failed = true
is_failed _ = false

abbrev is_uncertain : PaymentStatus → Bool
is_uncertain PaymentStatus.timeout = true
is_uncertain PaymentStatus.unknown = true
is_uncertain _ = false

-- The guards on the payment, in order.
unfoldable pub retry_guards : Bool → Principal → Payment → Result (Unit {0})
retry_guards allow_uncertain principal payment =
    raise_if (not (is_retryable payment.status)) (http 409)
    >> raise_if (truthy payment.mpesa_receipt_number || has_receipt payment.receipt_status)
        (http 409)
    >> raise_if (is_failed payment.status && not (is_rejected payment.provider_acceptance_state))
        (http 409)
    >> raise_if (is_uncertain payment.status && not allow_uncertain) (http 409)
    >> raise_if (is_uncertain payment.status && not principal.is_control_plane_admin) (http 403)

-- The guards, and who sends.
unfoldable pub admit_retry :
    Session → Bool → Principal → Payment → Result (MerchantAccount × DarajaCredential)
admit_retry db allow_uncertain principal payment =
    retry_guards allow_uncertain principal payment
    >> (scoped_merchant db principal payment.merchant_account_id >>= λ merchant.
        raise_if (not (eligible payment.purpose merchant)) (http 409)
        >> (active_credential db merchant >>= λ credential. ok (merchant, credential)))

-- The evidence of the last attempt is cleared.
abbrev pub cleared : Payment → Payment
cleared payment = record payment {
  checkout_request_id = none;
  merchant_request_id = none;
  result_code = none;
  result_description = none;
  failed_at = none;
  next_reconciliation_at = none;
  provider_acceptance_state = Acceptance.not_sent;
  receipt_status = ReceiptStatus.missing;
  review_status = ReviewStatus.none;
  review_reason = none;
}

unfoldable pub retry_attempt : MerchantAccount → ℕ → Result (Session × Payment) → Result StkWork
retry_attempt merchant number (err e) = err e
retry_attempt merchant number (ok (db, moved)) =
    let payment : Payment = cleared moved in
    let attempt : PaymentAttempt =
      new_attempt db.next_id payment number AttemptStatus.created none AttemptType.retry in
    ok (record {
      db =
          audit payment.organization_id (some merchant.id) Action.payment_retry_attempt_created
            attempt.id (insert_attempt attempt (save_payment payment db));
      payment = payment;
      attempt = attempt;
    })

-- Everything up to the commit before the submission.
unfoldable pub reopen_payment : MerchantAccount → Session → Payment → Result StkWork
unfolding retry_attempt
reopen_payment merchant db payment =
    retry_attempt merchant (length (select (λ a. a.payment_id == payment.id) db.attempts) + 1)
      (begin_retry_and_record db payment)

unfoldable pub send_reopened :
    Settings
    → ℕ
    → MerchantAccount
    → DarajaCredential
    → Bool
    → StkAnswer
    → Session
    → Result StkWork
    → Result Payment × Session
send_reopened settings now merchant credential taken answer db (err e) = (err e, db)
send_reopened settings now merchant credential taken answer db (ok w) =
    submit_stk_attempt settings now merchant credential taken answer w

unfoldable pub retry_admitted :
    Settings
    → ℕ
    → Bool
    → StkAnswer
    → Session
    → Payment
    → Result (MerchantAccount × DarajaCredential)
    → Result Payment × Session
unfolding send_reopened
retry_admitted settings now taken answer db payment (err e) = (err e, db)
retry_admitted settings now taken answer db payment (ok (merchant, credential)) =
    send_reopened settings now merchant credential taken answer db
      (reopen_payment merchant db payment)

unfoldable pub retry_found :
    Settings
    → ℕ
    → Principal
    → Bool
    → Bool
    → StkAnswer
    → Session
    → Option Payment
    → Result Payment × Session
retry_found settings now principal allow_uncertain taken answer db none = (err (http 404), db)
retry_found settings now principal allow_uncertain taken answer db (some payment) =
    retry_admitted settings now taken answer db payment
      (admit_retry db allow_uncertain principal payment)

-- The whole handler.
unfoldable pub retry_payment :
    Settings → ℕ → Principal → ℕ → Bool → Bool → StkAnswer → Session → Result Payment × Session
retry_payment settings now principal payment_id allow_uncertain taken answer db =
    retry_found settings now principal allow_uncertain taken answer db
      (first (λ p. may_see_payment db principal p && p.id == payment_id) db.payments)
