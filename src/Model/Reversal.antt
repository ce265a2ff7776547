-- ===== src/Model/Reversal.antt =====
-- `ReversalRequest` and `ReversalCallback` of app/models.py, with the payment binding that
-- app/reversal_controls.py keeps inside `request_payload_redacted`.
use lynxpay.Prelude.{ℕ, String, Option, List}
use lynxpay.Model.Status.{ReversalStatus}

-- The dictionary that `payment_reversal_binding` builds.
pub record Binding : Type 0 where
  pub organization_id : ℕ
  pub merchant_account_id : ℕ
  pub payment_id : ℕ
  pub amount : ℕ
  pub currency : String
  pub mpesa_receipt_number : String

-- The texts written to the `state` of an entry of `status_queries`.
pub data QueryState : Type 0 where
  submitting submission_failed accepted : QueryState

-- One entry of the list `status_queries` that the evidence of a reversal keeps; `requested_at` is
-- `none` where its text is no time.
pub record StatusQuery : Type 0 where
  pub requested_at : Option ℕ
  pub requested_by_user_id : Option ℕ
  pub state : QueryState

pub record ReversalRequest : Type 0 where
  pub id : ℕ
  pub organization_id : ℕ
  pub merchant_account_id : ℕ
  pub payment_id : ℕ
  pub idempotency_key : String
  pub idempotency_request_hash : String
  pub amount : ℕ
  pub currency : String
  pub status : ReversalStatus
  pub requested_by_user_id : Option ℕ
  pub approved_by_user_id : Option ℕ
  pub originator_conversation_id : Option String
  pub conversation_id : Option String
  pub provider_transaction_id : Option String
  pub response_code : Option String
  pub binding : Option Binding
  pub status_queries : List StatusQuery
  pub approved_at : Option ℕ
  pub submission_started_at : Option ℕ
  pub submitted_at : Option ℕ
  pub completed_at : Option ℕ
  pub created_at : ℕ
  pub lease_owner : Option ℕ
  pub lease_expires_at : Option ℕ

-- The path segment of a reversal callback, where it is a known one.
pub data CallbackType : Type 0 where
  result timeout status_result status_timeout : CallbackType

-- The texts written to `ReversalCallback.processing_status`.
pub data ReversalProcessing : Type 0 where
  received oversized source_rejected malformed unmatched duplicate : ReversalProcessing
  terminal_state_conflict processed_timeout status_query_timeout : ReversalProcessing
  status_query_inconclusive processed_failure status_query_not_reversed : ReversalProcessing
  payment_binding_conflict processed_success : ReversalProcessing

pub record ReversalCallback : Type 0 where
  pub id : ℕ
  pub merchant_account_id : ℕ
  pub reversal_request_id : Option ℕ
  pub callback_type : CallbackType
  pub originator_conversation_id : Option String
  pub conversation_id : Option String
  pub result_code : Option String
  pub transaction_id : Option String
  pub processing_status : ReversalProcessing
  pub processed_at : Option ℕ
  pub received_at : ℕ
