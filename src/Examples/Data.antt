-- ===== src/Examples/Data.antt =====
-- A merchant with one payment that waits for its callback.
use lynxpay.Prelude.{
  ℕ, ℤ, pos, true, false, Bool, ◌&&◌, leb, text_eq, String, Option, none, some, List, [], ◌∷◌,
  if◌then◌else◌,
}
use lynxpay.Model.{
  PaymentStatus, Purpose, SuccessSource, ReceiptStatus, ReviewStatus, Acceptance, AttemptStatus,
  AttemptType, MerchantStatus, Environment, EventType, MerchantAccount, DarajaCredential, Payment,
  PaymentAttempt, PaymentLedgerEntry, Session, Settings, Library,
}
use lynxpay.Service.{CallbackFields}
use lynxpay.Callbacks.{CallbackRequest}
use lynxpay.Reconciliation.{Snapshot, Answer}
use lynxpay.Stk.{Principal, StkAnswer, StkPushCreate}

abbrev pub settings : Settings
settings = record {
  webhook_max_attempts = 8;
  webhook_retry_base_seconds = 30;
  webhook_lease_seconds = 120;
  webhook_claim_per_endpoint = 2;
  webhook_auto_pause_failures = 10;
  reconciliation_initial_delay_seconds = 60;
  reconciliation_frequent_interval_seconds = 60;
  reconciliation_slow_interval_seconds = 300;
  reconciliation_occasional_interval_seconds = 1800;
  reconciliation_manual_review_after_hours = 24;
  reconciliation_max_attempts = 48;
  stk_submitting_timeout_seconds = 300;
  reversal_lease_seconds = 120;
  maintenance_batch_size = 100;
}

abbrev hundred : String → Option ℤ
hundred text = if text_eq text "100.00" then some (pos 10000) else none

abbrev pub ascii_digit : ℕ → Bool
ascii_digit c = leb 48 c && leb c 57

abbrev pub library : Library
library = record { quantize = hundred; is_decimal = ascii_digit }

-- 254712345678
abbrev pub phone : List ℕ
phone = 50 ∷ 53 ∷ 52 ∷ 55 ∷ 49 ∷ 50 ∷ 51 ∷ 52 ∷ 53 ∷ 54 ∷ 55 ∷ 56 ∷ []

abbrev pub merchant : MerchantAccount
merchant = record {
  id = 1;
  organization_id = 2;
  environment = Environment.sandbox;
  status = MerchantStatus.active;
}

abbrev pub credential : DarajaCredential
credential = record {
  merchant_account_id = 1;
  environment = Environment.sandbox;
  is_active = true;
  shortcode = "174379";
  decryptable = true;
  reversal_present = true;
  reversal_decryptable = true;
}

abbrev pub sent : Payment
sent = record {
  id = 7;
  organization_id = 2;
  merchant_account_id = 1;
  external_reference = "order-1";
  idempotency_key = none;
  idempotency_request_hash = some "hash-1";
  invoice_id = none;
  customer_phone = phone;
  amount = 10000;
  currency = "KES";
  purpose = Purpose.payment;
  status = PaymentStatus.stk_sent;
  success_source = SuccessSource.unknown;
  receipt_status = ReceiptStatus.missing;
  review_status = ReviewStatus.none;
  review_reason = none;
  provider_acceptance_state = Acceptance.accepted;
  checkout_request_id = some "ws_1";
  merchant_request_id = some "mr_1";
  mpesa_receipt_number = none;
  result_code = none;
  result_description = none;
  paid_at = none;
  failed_at = none;
  created_at = 1000;
  reconciliation_attempts = 0;
  last_reconciled_at = none;
  next_reconciliation_at = some 1060;
  reconciliation_lease_owner = some 5;
  reconciliation_lease_expires_at = some 1200;
}

abbrev pub sent_attempt : PaymentAttempt
sent_attempt = record {
  id = 8;
  payment_id = 7;
  merchant_account_id = 1;
  attempt_number = 1;
  phone_number = phone;
  amount = 10000;
  merchant_request_id = some "mr_1";
  checkout_request_id = some "ws_1";
  response_code = some "0";
  response_description = none;
  status = AttemptStatus.accepted;
  submission_started_at = some 1000;
  provider_responded_at = some 1001;
  abandoned_at = none;
  attempt_type = AttemptType.initial;
}

abbrev pub entry : Option PaymentStatus → PaymentStatus → PaymentLedgerEntry
entry from to = record {
  payment_id = 7;
  event_type = EventType.payment to;
  status_from = from;
  status_to = to;
  amount = 10000;
  currency = "KES";
}

abbrev pub sent_db : Session
sent_db = record {
  next_id = 9;
  merchants = merchant ∷ [];
  credentials = credential ∷ [];
  payments = sent ∷ [];
  attempts = sent_attempt ∷ [];
  callbacks = [];
  invoices = [];
  reversals = [];
  reversal_callbacks = [];
  endpoints = [];
  deliveries = [];
  delivery_attempts = [];
  checks = [];
  ledger =
      entry (some PaymentStatus.pending) PaymentStatus.stk_sent
      ∷ entry (some PaymentStatus.created) PaymentStatus.pending
      ∷ entry none PaymentStatus.created
      ∷ [];
  audits = [];
}

-- The callback that pays it.
abbrev pub paying_fields : CallbackFields
paying_fields = record {
  checkout_request_id = some "ws_1";
  merchant_request_id = some "mr_1";
  result_code = some "0";
  result_description = some "done";
  mpesa_receipt_number = some "RKT1";
  amount = some "100.00";
  phone = some phone;
}

abbrev pub paying : CallbackRequest
paying = record {
  oversized = false;
  allowed = true;
  fields = paying_fields;
  commit_conflict = false;
}

abbrev pub snapshot : Snapshot
snapshot = record { owner = 5; checkout_request_id = some "ws_1"; available = true }

abbrev pub confirming : Answer
confirming = record { code = some "0"; description = none }

abbrev pub admin : Principal
admin = record {
  organization_id = 2;
  user_id = some 60;
  merchant_id = none;
  key_environment = none;
  is_control_plane_admin = true;
}

abbrev pub taking : StkAnswer
taking = StkAnswer.answered (record {
  merchant_request_id = some "mr_2";
  checkout_request_id = some "ws_2";
  response_code = "0";
  response_description = none;
})

abbrev pub order : StkPushCreate
order = record {
  merchant_id = 1;
  amount = 5000;
  phone_number = phone;
  external_reference = "order-2";
  invoice_id = none;
  purpose = Purpose.payment;
  idempotency_key = none;
  idempotency_digest = "digest";
  fingerprint = "hash-2";
}
