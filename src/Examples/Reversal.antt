-- ===== src/Examples/Reversal.antt =====
-- A reversal request that is bound to a successful payment.
use lynxpay.Prelude.{◌≡◌, ◌↔◌, none, some, [], ◌∷◌}
use lynxpay.Model.{PaymentStatus, ReversalStatus, Payment, ReversalRequest}
use lynxpay.Reversals.{payment_reversal_binding, reversal_binding_error}
use lynxpay.Reversals.Bound.{IsReversible, reversal_binding_iff}
use lynxpay.Examples.Data.{sent}

abbrev pub paid_payment : Payment
paid_payment = record sent { status = PaymentStatus.success; mpesa_receipt_number = some "RKT1" }

abbrev pub bound_request : ReversalRequest
bound_request = record {
  id = 50;
  organization_id = 2;
  merchant_account_id = 1;
  payment_id = 7;
  idempotency_key = "key";
  idempotency_request_hash = "hash";
  amount = 10000;
  currency = "KES";
  status = ReversalStatus.approved;
  requested_by_user_id = some 60;
  approved_by_user_id = some 61;
  originator_conversation_id = none;
  conversation_id = none;
  provider_transaction_id = none;
  response_code = none;
  status_queries = [];
  binding = some (payment_reversal_binding paid_payment);
  approved_at = some 1500;
  submission_started_at = none;
  submitted_at = none;
  completed_at = none;
  created_at = 1400;
  lease_owner = none;
  lease_expires_at = none;
}

reversal_binding_iff_example :
    (reversal_binding_error (PaymentStatus.success ∷ []) bound_request (some paid_payment) ≡ none)
    ↔ IsReversible (PaymentStatus.success ∷ []) bound_request paid_payment
reversal_binding_iff_example =
    reversal_binding_iff (PaymentStatus.success ∷ []) bound_request paid_payment
