-- ===== src/Examples/Delivery.antt =====
-- A webhook that a worker has claimed.
use lynxpay.Webhooks.Claims.{IsClaimableDelivery, claim_deliveries_bounds, to_endpoint}
use lynxpay.Webhooks.Outcomes.{conclude-Counts, deliver-IsDelivery, Counts, is_claimed, IsDelivery}
use lynxpay.Model.{
  EndpointStatus, DeliveryStatus, PaymentStatus, EventType, WebhookEndpoint, WebhookDelivery,
  Session,
}
use lynxpay.Webhooks.{
  claimed_deliveries, deliver_claimed, start_delivery, WebhookAnswer, conclude_delivery,
}
use lynxpay.Prelude.{ℕ, ◌≤◌, All, length, arith, false, first, refl, none, some, [], ◌∷◌}
use lynxpay.Examples.Data.{settings, sent, sent_db}

abbrev endpoint : WebhookEndpoint
endpoint = record {
  id = 20;
  organization_id = 2;
  merchant_account_id = none;
  event_types = EventType.payment PaymentStatus.stk_sent ∷ [];
  status = EndpointStatus.active;
  consecutive_failures = 9;
  paused_at = none;
}

abbrev claimed : WebhookDelivery
claimed = record {
  id = 21;
  webhook_endpoint_id = 20;
  payment_id = 7;
  event_type = EventType.payment PaymentStatus.stk_sent;
  payload = sent;
  status = DeliveryStatus.delivering;
  attempts = 2;
  max_attempts = 8;
  next_retry_at = some 1000;
  response_status_code = none;
  lease_owner = some 5;
  lease_expires_at = some 1200;
  delivered_at = none;
  created_at = 1000;
}

abbrev delivery_db : Session
delivery_db = record sent_db { endpoints = endpoint ∷ []; deliveries = claimed ∷ [] }

deliver-IsDelivery_example :
    IsDelivery settings 1010
      (first (is_claimed 21 5) delivery_db.deliveries)
      (deliver_claimed settings 1010 1012 3 (WebhookAnswer.responded 204) 21 5 delivery_db).0
deliver-IsDelivery_example =
    deliver-IsDelivery settings 1010 1012 3 (WebhookAnswer.responded 204) 21 5 delivery_db
      (omega arith)

conclude-Counts_example :
    let s' =
      conclude_delivery settings 1010 1012 3
        (WebhookAnswer.responded 503)
        (start_delivery 1010 30 claimed (some endpoint)) in
    Counts settings false endpoint s'.delivery s'.endpoint
conclude-Counts_example =
    conclude-Counts settings 1010 1012 3 (WebhookAnswer.responded 503)
      (start_delivery 1010 30 claimed (some endpoint)) endpoint refl refl refl

claim_deliveries_bounds_example :
    (length (claimed_deliveries settings 0 1300 500 delivery_db) ≤ 100)
    × ((k : ℕ) → to_endpoint k (claimed_deliveries settings 0 1300 500 delivery_db) ≤ 2)
    × All
        (IsClaimableDelivery 1300 delivery_db)
        (claimed_deliveries settings 0 1300 500 delivery_db)
claim_deliveries_bounds_example = claim_deliveries_bounds settings 0 1300 500 delivery_db
