-- ===== src/Model/Database.antt =====
-- The database as its tables, newest rows first. `next_id` stands for `uuid4`: every new row takes
-- a key that no row had. A handler takes the tables as they stand and returns them as committed.
use lynxpay.Prelude.{ℕ, Bool, String, Option, List, ℤ}
use lynxpay.Model.Payments.{Payment, PaymentAttempt, MpesaCallback}
use lynxpay.Model.Records.{
  MerchantAccount, DarajaCredential, Invoice, WebhookEndpoint, WebhookDelivery,
  WebhookDeliveryAttempt, PaymentStatusCheck, PaymentLedgerEntry, AuditLog,
}
use lynxpay.Model.Reversal.{ReversalRequest, ReversalCallback}

pub record Session : Type 0 where
  pub next_id : ℕ
  pub merchants : List MerchantAccount
  pub credentials : List DarajaCredential
  pub payments : List Payment
  pub attempts : List PaymentAttempt
  pub callbacks : List MpesaCallback
  pub invoices : List Invoice
  pub reversals : List ReversalRequest
  pub reversal_callbacks : List ReversalCallback
  pub endpoints : List WebhookEndpoint
  pub deliveries : List WebhookDelivery
  pub delivery_attempts : List WebhookDeliveryAttempt
  pub checks : List PaymentStatusCheck
  pub ledger : List PaymentLedgerEntry
  pub audits : List AuditLog

-- The settings of app/core/config.py that the modelled code reads.
pub record Settings : Type 0 where
  pub webhook_max_attempts : ℕ
  pub webhook_retry_base_seconds : ℕ
  pub webhook_lease_seconds : ℕ
  pub webhook_claim_per_endpoint : ℕ
  pub webhook_auto_pause_failures : ℕ
  pub reconciliation_initial_delay_seconds : ℕ
  pub reconciliation_frequent_interval_seconds : ℕ
  pub reconciliation_slow_interval_seconds : ℕ
  pub reconciliation_occasional_interval_seconds : ℕ
  pub reconciliation_manual_review_after_hours : ℕ
  pub reconciliation_max_attempts : ℕ
  pub stk_submitting_timeout_seconds : ℕ
  pub reversal_lease_seconds : ℕ
  pub maintenance_batch_size : ℕ

-- What the code takes from Python: `Decimal(str(x)).quantize(Decimal("0.01"))` as a number of
-- cents, `none` where it raises, and the decimal digits of `re` (`\d`), by code point.
pub record Library : Type 0 where
  pub quantize : String → Option ℤ
  pub is_decimal : ℕ → Bool
