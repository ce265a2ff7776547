-- ===== src/Model/Status.antt =====
-- The texts that the columns of app/models.py may hold, by their CHECK constraints or by the
-- values that the code writes, as data types. `rank` numbers the values, for the Boolean tests.
use lynxpay.Prelude.{ℕ, Bool, true, false, ◌==◌}

-- `ck_lynxpay_payment_status`
pub data PaymentStatus : Type 0 where
  created pending stk_sent success failed timeout cancelled reversed unknown : PaymentStatus

abbrev pub rank : PaymentStatus → ℕ
rank created = 0
rank pending = 1
rank stk_sent = 2
rank success = 3
rank failed = 4
rank timeout = 5
rank cancelled = 6
rank reversed = 7
rank unknown = 8

-- `==` on payment statuses
abbrev pub same_status : PaymentStatus → PaymentStatus → Bool
same_status s t = rank s == rank t

-- `status in {…}`
abbrev pub in_flight : PaymentStatus → Bool
in_flight stk_sent = true
in_flight unknown = true
in_flight _ = false

-- `ck_lynxpay_payment_purpose`
pub data Purpose : Type 0 where
  payment merchant_verification : Purpose

-- `ck_lynxpay_payment_success_source`
pub data SuccessSource : Type 0 where
  callback status_query manual_review unknown : SuccessSource

-- `ck_lynxpay_payment_receipt_status`
pub data ReceiptStatus : Type 0 where
  present missing enriched_later not_applicable : ReceiptStatus

-- `ck_lynxpay_payment_review_status`
pub data ReviewStatus : Type 0 where
  none needs_review resolved : ReviewStatus

-- `ck_lynxpay_payment_provider_acceptance`
pub data Acceptance : Type 0 where
  not_sent accepted rejected uncertain : Acceptance

-- The categories of app/provider_codes.py.
pub data Category : Type 0 where
  completed insufficient_funds subscriber_locked transaction_expired customer_cancelled : Category
  provider_callback_timeout invalid_customer_credentials provider_unclassified : Category
  provider_internal_error unrecognized_provider_result : Category

-- The texts written to `Payment.review_reason`.
pub data ReviewReason : Type 0 where
  provider_acceptance_uncertain accepted_without_checkout_request_id : ReviewReason
  checkout_request_id_conflict stale_stk_submission_abandoned reconciliation_exhausted :
      ReviewReason
  status_query_success_missing_receipt duplicate_mpesa_receipt : ReviewReason
  conflicting_success_receipt callback_transition_conflict : ReviewReason
  missing_receipt missing_amount invalid_amount amount_mismatch : ReviewReason
  invalid_phone phone_mismatch : ReviewReason
  provider_result : Category → ReviewReason

-- The texts written to `PaymentAttempt.status`; `as_payment` is the text of a payment status.
pub data AttemptStatus : Type 0 where
  created submitting not_sent accepted rejected uncertain abandoned conflict succeeded :
      AttemptStatus
  as_payment : PaymentStatus → AttemptStatus

-- `PaymentAttempt.attempt_type`
pub data AttemptType : Type 0 where
  initial retry invoice : AttemptType

-- The texts written to `MpesaCallback.processing_status`.
pub data Processing : Type 0 where
  received oversized source_rejected malformed unmatched duplicate conflict : Processing
  processed_success processed_failure processed_unknown verification_failed : Processing

-- `ck_lynxpay_invoice_status`
pub data InvoiceStatus : Type 0 where
  draft sent paid void expired : InvoiceStatus

-- `ck_lynxpay_merchant_status`
pub data MerchantStatus : Type 0 where
  active inactive suspended pending_setup credentials_added verified : MerchantStatus
  pending_approval rejected : MerchantStatus

-- `ck_lynxpay_merchant_environment`
pub data Environment : Type 0 where
  sandbox production : Environment

abbrev pub same_environment : Environment → Environment → Bool
same_environment sandbox sandbox = true
same_environment production production = true
same_environment _ _ = false

-- The texts written to `WebhookEndpoint.status`.
pub data EndpointStatus : Type 0 where
  active paused archived : EndpointStatus

-- The texts written to `WebhookDelivery.status`.
pub data DeliveryStatus : Type 0 where
  queued delivering retry_scheduled delivered dead_letter : DeliveryStatus

-- `ck_lynxpay_reversal_status`
pub data ReversalStatus : Type 0 where
  pending_approval approved submitting submitted succeeded failed timeout unknown : ReversalStatus
  cancelled : ReversalStatus

-- The texts written to `PaymentLedgerEntry.event_type`: "payment." with a status, or the retry.
pub data EventType : Type 0 where
  payment : PaymentStatus → EventType
  payment_retry_started : EventType

abbrev pub same_event : EventType → EventType → Bool
same_event (payment s) (payment t) = same_status s t
same_event payment_retry_started payment_retry_started = true
same_event _ _ = false
