-- ===== src/Model/Records.antt =====
-- The other tables of app/models.py: merchants, credentials, invoices, webhooks, status checks, the
-- ledger and the audit log. Columns that are only written for display are left out.
use lynxpay.Prelude.{ℕ, String, Bool, Option, List}
use lynxpay.Model.Status.{
  PaymentStatus, MerchantStatus, Environment, InvoiceStatus, EndpointStatus, DeliveryStatus,
  EventType, ReversalStatus,
}
use lynxpay.Model.Payments.{Payment}

pub record MerchantAccount : Type 0 where
  pub id : ℕ
  pub organization_id : ℕ
  pub environment : Environment
  pub status : MerchantStatus

-- `decryptable` and `reversal_decryptable` say whether the ciphertexts decrypt, and
-- `reversal_present` whether the two of the reversals are there (app/core/security.py is not
-- modelled).
pub record DarajaCredential : Type 0 where
  pub merchant_account_id : ℕ
  pub environment : Environment
  pub is_active : Bool
  pub shortcode : String
  pub decryptable : Bool
  pub reversal_present : Bool
  pub reversal_decryptable : Bool

pub record Invoice : Type 0 where
  pub id : ℕ
  pub public_id : String
  pub invoice_number : String
  pub organization_id : ℕ
  pub merchant_account_id : ℕ
  pub amount : ℕ
  pub currency : String
  pub status : InvoiceStatus
  pub paid_at : Option ℕ
  pub voided_at : Option ℕ
  pub payment_id : Option ℕ

pub record WebhookEndpoint : Type 0 where
  pub id : ℕ
  pub organization_id : ℕ
  pub merchant_account_id : Option ℕ
  pub event_types : List EventType
  pub status : EndpointStatus
  pub consecutive_failures : ℕ
  pub paused_at : Option ℕ

-- `payload` is the payment that `payment_payload` shows.
pub record WebhookDelivery : Type 0 where
  pub id : ℕ
  pub webhook_endpoint_id : ℕ
  pub payment_id : ℕ
  pub event_type : EventType
  pub payload : Payment
  pub status : DeliveryStatus
  pub attempts : ℕ
  pub max_attempts : ℕ
  pub next_retry_at : Option ℕ
  pub response_status_code : Option ℕ
  pub lease_owner : Option ℕ
  pub lease_expires_at : Option ℕ
  pub delivered_at : Option ℕ
  pub created_at : ℕ

-- The texts written to `WebhookDeliveryAttempt.status`.
pub data DeliveryAttemptStatus : Type 0 where
  started delivered failed : DeliveryAttemptStatus

pub record WebhookDeliveryAttempt : Type 0 where
  pub id : ℕ
  pub webhook_delivery_id : ℕ
  pub attempt_number : ℕ
  pub status : DeliveryAttemptStatus
  pub response_status_code : Option ℕ
  pub started_at : ℕ
  pub finished_at : Option ℕ

-- The outcomes that `PaymentStatusCheck` records.
pub data CheckOutcome : Type 0 where
  ambiguous superseded : CheckOutcome
  settled : PaymentStatus → CheckOutcome

pub record PaymentStatusCheck : Type 0 where
  pub payment_id : ℕ
  pub checkout_request_id : Option String
  pub result_code : Option String
  pub outcome : CheckOutcome
  pub checked_at : ℕ

pub record PaymentLedgerEntry : Type 0 where
  pub payment_id : ℕ
  pub event_type : EventType
  pub status_from : Option PaymentStatus
  pub status_to : PaymentStatus
  pub amount : ℕ
  pub currency : String

-- The `action` texts of the audit log: `payment_marked_…`, an event type with its dots replaced,
-- `reversal_…` with a status, and the fixed ones.
pub data Action : Type 0 where
  payment_marked : PaymentStatus → Action
  event : EventType → Action
  payment_created payment_retry_initiated payment_retry_attempt_created : Action
  stk_push_request_failed stk_push_initiated checkout_request_id_conflict : Action
  stk_submission_abandoned payment_status_reconciled : Action
  callback_received callback_oversized_rejected callback_source_rejected callback_malformed : Action
  callback_unmatched duplicate_callback_detected duplicate_mpesa_receipt_detected : Action
  callback_conflict_detected payment_success_evidence_enriched callback_verification_failed : Action
  callback_transition_blocked callback_unique_constraint_blocked : Action
  reversal : ReversalStatus → Action
  reversal_requested reversal_approval_conflict reversal_submission_abandoned : Action
  reversal_submission_binding_conflict reversal_callback_received : Action
  reversal_callback_terminal_conflict webhook_endpoint_auto_paused : Action
  reversal_status_query_requested reversal_status_query_submission_failed : Action
  reversal_status_query_accepted invoice_created invoice_voided invoice_payment_created : Action

pub record AuditLog : Type 0 where
  pub organization_id : ℕ
  pub merchant_account_id : Option ℕ
  pub action : Action
  pub entity_id : ℕ
