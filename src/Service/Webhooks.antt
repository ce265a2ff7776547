-- ===== src/Service/Webhooks.antt =====
-- `queue_webhooks` of app/service.py.
use lynxpay.Prelude.{
  ℕ, ◌+◌, Bool, true, false, not, ◌&&◌, ◌==◌, Option, none, some, List, [], ◌∷◌, select, any,
  if◌then◌else◌,
}
use lynxpay.Model.{
  EventType, same_event, EndpointStatus, DeliveryStatus, Payment, WebhookEndpoint, WebhookDelivery,
  Session, Settings,
}

abbrev pub is_active : EndpointStatus → Bool
is_active EndpointStatus.active = true
is_active _ = false

-- `endpoint.merchant_account_id and endpoint.merchant_account_id != …`
abbrev other_merchant : Option ℕ → Payment → Bool
other_merchant none payment = false
other_merchant (some merchant_id) payment = not (merchant_id == payment.merchant_account_id)

-- The loop's `continue` tests: the endpoint takes this payment's event.
abbrev pub listens : EventType → Payment → WebhookEndpoint → Bool
listens event_type payment endpoint =
    not (other_merchant endpoint.merchant_account_id payment)
    && any (same_event event_type) endpoint.event_types

abbrev pub new_delivery : Settings → ℕ → Payment → EventType → ℕ → WebhookEndpoint → WebhookDelivery
new_delivery settings now payment event_type key endpoint = record {
  id = key;
  webhook_endpoint_id = endpoint.id;
  payment_id = payment.id;
  event_type = event_type;
  payload = payment;
  status = DeliveryStatus.queued;
  attempts = 0;
  max_attempts = settings.webhook_max_attempts;
  next_retry_at = some now;
  response_status_code = none;
  lease_owner = none;
  lease_expires_at = none;
  delivered_at = none;
  created_at = now;
}

-- The loop over the endpoints, with the next key and the deliveries so far.
unfoldable pub queue_from :
    Settings
    → ℕ
    → Payment
    → EventType
    → List WebhookEndpoint
    → ℕ
    → List WebhookDelivery
    → ℕ × List WebhookDelivery
queue_from settings now payment event_type [] key queue = (key, queue)
queue_from settings now payment event_type (endpoint ∷ rest) key queue =
    let takes = listens event_type payment endpoint in
    queue_from settings now payment event_type rest (if takes then key + 1 else key)
      (if takes then new_delivery settings now payment event_type key endpoint ∷ queue else queue)

unfoldable pub queue_webhooks : Settings → ℕ → Payment → EventType → Session → Session
queue_webhooks settings now payment event_type db =
    let endpoints =
      select (λ e. e.organization_id == payment.organization_id && is_active e.status)
        db.endpoints in
    let (key, queue) =
      queue_from settings now payment event_type endpoints db.next_id db.deliveries in
    record db { next_id = key; deliveries = queue }
