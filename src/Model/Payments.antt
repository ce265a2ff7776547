-- ===== src/Model/Payments.antt =====
-- `Payment`, `PaymentAttempt` and `MpesaCallback` of app/models.py. Keys (UUID texts, only
-- compared) are numbers; amounts are whole cents (`Numeric(12, 2)`); times are
-- seconds; phone numbers are lists of code points.
use lynxpay.Prelude.{ℕ, String, Bool, Option, List, ℤ}
use lynxpay.Model.Status.{
  PaymentStatus, Purpose, SuccessSource, ReceiptStatus, ReviewStatus, ReviewReason, Acceptance,
  AttemptStatus, AttemptType, Processing,
}

pub record Payment : Type 0 where
  pub id : ℕ
  pub organization_id : ℕ
  pub merchant_account_id : ℕ
  pub external_reference : String
  pub idempotency_key : Option String
  pub idempotency_request_hash : Option String
  pub invoice_id : Option ℕ
  pub customer_phone : List ℕ
  pub amount : ℕ
  pub currency : String
  pub purpose : Purpose
  pub status : PaymentStatus
  pub success_source : SuccessSource
  pub receipt_status : ReceiptStatus
  pub review_status : ReviewStatus
  pub review_reason : Option ReviewReason
  pub provider_acceptance_state : Acceptance
  pub checkout_request_id : Option String
  pub merchant_request_id : Option String
  pub mpesa_receipt_number : Option String
  pub result_code : Option String
  pub result_description : Option String
  pub paid_at : Option ℕ
  pub failed_at : Option ℕ
  pub created_at : ℕ
  pub reconciliation_attempts : ℕ
  pub last_reconciled_at : Option ℕ
  pub next_reconciliation_at : Option ℕ
  pub reconciliation_lease_owner : Option ℕ
  pub reconciliation_lease_expires_at : Option ℕ

pub record PaymentAttempt : Type 0 where
  pub id : ℕ
  pub payment_id : ℕ
  pub merchant_account_id : ℕ
  pub attempt_number : ℕ
  pub phone_number : List ℕ
  pub amount : ℕ
  pub merchant_request_id : Option String
  pub checkout_request_id : Option String
  pub response_code : Option String
  pub response_description : Option String
  pub status : AttemptStatus
  pub submission_started_at : Option ℕ
  pub provider_responded_at : Option ℕ
  pub abandoned_at : Option ℕ
  pub attempt_type : AttemptType

pub record MpesaCallback : Type 0 where
  pub id : ℕ
  pub merchant_account_id : ℕ
  pub payment_id : Option ℕ
  pub checkout_request_id : Option String
  pub merchant_request_id : Option String
  pub mpesa_receipt_number : Option String
  pub callback_amount : Option ℤ
  pub callback_phone : Option (List ℕ)
  pub result_code : Option String
  pub result_description : Option String
  pub processed : Bool
  pub processing_status : Processing
  pub processed_at : Option ℕ
  pub duplicate_of_callback_id : Option ℕ
  pub received_at : ℕ
