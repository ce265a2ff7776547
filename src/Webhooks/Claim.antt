-- ===== src/Webhooks/Claim.antt =====
-- `claim_deliveries` of app/webhooks.py.
use lynxpay.Webhooks.Deliver.{is_delivering}
use lynxpay.Service.{is_active}
use lynxpay.Reconciliation.{due, page}
use lynxpay.Model.{Settings, Session, WebhookDelivery, DeliveryStatus}
use lynxpay.Prelude.{
  ℕ, suc, ◌+◌, max, Bool, true, false, ◌&&◌, ◌||◌, ◌==◌, ltb, is_none, any, none, some, List, [],
  ◌∷◌, take, select, update, map, sort_by, contains, if◌then◌else◌,
}

-- `status in ("queued", "retry_scheduled")`
abbrev pub is_waiting : DeliveryStatus → Bool
is_waiting DeliveryStatus.queued = true
is_waiting DeliveryStatus.retry_scheduled = true
is_waiting _ = false

-- `or_(due, expired)`
abbrev pub is_deliverable : ℕ → WebhookDelivery → Bool
is_deliverable now d =
    (is_waiting d.status && (is_none d.next_retry_at || due now d.next_retry_at))
    || (is_delivering d.status && due now d.lease_expires_at)

-- The join with the endpoint, and the filter.
abbrev pub claimable_delivery : ℕ → Session → WebhookDelivery → Bool
claimable_delivery now db d =
    is_deliverable now d
    && any (λ e. e.id == d.webhook_endpoint_id && is_active e.status) db.endpoints

-- The time that a delivery is sorted by; where a NULL sorts is the database's.
abbrev pub retry_time : ℕ → WebhookDelivery → ℕ
retry_time null_time d = elim d.next_retry_at [ none ↦ null_time | some t ↦ t ]

-- `order_by(next_retry_at.asc(), created_at.asc())`
abbrev pub by_retry_time : ℕ → List WebhookDelivery → List WebhookDelivery
by_retry_time null_time rows = sort_by (retry_time null_time) (sort_by (λ d. d.created_at) rows)

-- How many of the keys are `k`.
abbrev pub count_key : ℕ → List ℕ → ℕ
count_key k [] = 0
count_key k (x ∷ xs) = if x == k then suc (count_key k xs) else count_key k xs

-- `endpoint_rank <= per_endpoint`: `before` has the endpoints of the rows that sort before.
unfoldable pub first_ranked : ℕ → List ℕ → List WebhookDelivery → List WebhookDelivery
first_ranked per_endpoint before [] = []
first_ranked per_endpoint before (d ∷ rest) =
    let later = first_ranked per_endpoint (d.webhook_endpoint_id ∷ before) rest in
    if ltb (count_key d.webhook_endpoint_id before) per_endpoint then d ∷ later else later

-- The rows of the query, which sorts the ranked rows in the order of their ranks.
unfoldable pub claimed_deliveries : Settings → ℕ → ℕ → ℕ → Session → List WebhookDelivery
claimed_deliveries settings null_time now limit db = take (page limit) (
    first_ranked (max settings.webhook_claim_per_endpoint 1) []
      (by_retry_time null_time (select (claimable_delivery now db) db.deliveries)))

abbrev pub delivering_by : ℕ → ℕ → WebhookDelivery → WebhookDelivery
delivering_by worker_id until d = record d {
  status = DeliveryStatus.delivering;
  lease_owner = some worker_id;
  lease_expires_at = some until;
}

-- The ids claimed, and the session with their leases.
unfoldable pub claim_deliveries : Settings → ℕ → ℕ → ℕ → ℕ → Session → List ℕ × Session
claim_deliveries settings null_time now worker_id limit db =
    let ids = map (λ d. d.id) (claimed_deliveries settings null_time now limit db) in
    (
      ids,
      record db {
        deliveries =
            update (λ d. contains ids d.id)
              (delivering_by worker_id (now + settings.webhook_lease_seconds)) db.deliveries;
      },
    )
