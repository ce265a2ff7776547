-- ===== src/Webhooks/Claims.antt =====
-- What a claim of deliveries takes.
use lynxpay.Reconciliation.{page}
use lynxpay.Reconciliation.Claims.{HasCome, due-HasCome}
use lynxpay.Service.{is_active}
use lynxpay.Webhooks.{
  retry_time, by_retry_time, claimable_delivery, is_deliverable, count_key, first_ranked,
  claimed_deliveries,
}
use lynxpay.Model.{
  Session, Settings, WebhookDelivery, WebhookEndpoint, EndpointStatus, DeliveryStatus,
}
use lynxpay.Prelude.{
  All-map, IsIn, any_sound, Bool, ◌&&◌, ◌⊎◌, none, ℕ, zero, suc, take, length, length-take-le,
  take-All, sort_by-All, select-All, ltb, max, ◌-◌, true, ◌≡◌, ◌≤◌, ◌==◌, List, [], ◌∷◌, All,
  select, arith, if_both, if◌then◌else◌,
}

-- How many of the rows go to one endpoint.
abbrev pub to_endpoint : ℕ → List WebhookDelivery → ℕ
to_endpoint k [] = 0
to_endpoint k (d ∷ rest) =
    if d.webhook_endpoint_id == k then suc (to_endpoint k rest) else to_endpoint k rest

to_endpoint-take :
    (k n : ℕ) (rows : List WebhookDelivery) → to_endpoint k (take n rows) ≤ to_endpoint k rows
to_endpoint-take k zero rows = omega arith
to_endpoint-take k (suc n) [] = omega arith
to_endpoint-take k (suc n) (d ∷ rest) = ground (arith, to_endpoint-take k n rest)

-- The ranks of an endpoint's rows are counted from the rows before.
ranked_bound :
    (k per_endpoint : ℕ) (before : List ℕ) (rows : List WebhookDelivery)
    → to_endpoint k (first_ranked per_endpoint before rows) ≤ per_endpoint - count_key k before
unfolding first_ranked
ranked_bound k per_endpoint before [] = omega arith
ranked_bound k per_endpoint before (d ∷ rest) =
    ground (arith, ranked_bound k per_endpoint (d.webhook_endpoint_id ∷ before) rest)

ranked-All :
    (P : WebhookDelivery → Type 0) (per_endpoint : ℕ) (before : List ℕ)
    (rows : List WebhookDelivery)
    → All P rows
    → All P (first_ranked per_endpoint before rows)
unfolding first_ranked
ranked-All P per_endpoint before [] h = tt
ranked-All P per_endpoint before (d ∷ rest) h =
    if_both (All P) (ltb (count_key d.webhook_endpoint_id before) per_endpoint)
      (h.0, ranked-All P per_endpoint (d.webhook_endpoint_id ∷ before) rest h.1)
      (ranked-All P per_endpoint (d.webhook_endpoint_id ∷ before) rest h.1)

-- A delivery that may be sent: it waits and its time has come, or has none, or its worker's lease
-- has ended; and its endpoint is in the table and active.
abbrev pub IsClaimableDelivery : ℕ → Session → WebhookDelivery → Type 0
IsClaimableDelivery now db d =
    ((((d.status ≡ DeliveryStatus.queued) ⊎ (d.status ≡ DeliveryStatus.retry_scheduled))
        × ((d.next_retry_at ≡ none) ⊎ HasCome now d.next_retry_at))
      ⊎ ((d.status ≡ DeliveryStatus.delivering) × HasCome now d.lease_expires_at))
    × ((e : WebhookEndpoint) × IsIn e db.endpoints
        × (e.id ≡ d.webhook_endpoint_id)
        × (e.status ≡ EndpointStatus.active))

is_deliverable-HasCome :
    (now : ℕ) (d : WebhookDelivery)
    → is_deliverable now d ≡ true
    → (((d.status ≡ DeliveryStatus.queued) ⊎ (d.status ≡ DeliveryStatus.retry_scheduled))
        × ((d.next_retry_at ≡ none) ⊎ HasCome now d.next_retry_at))
      ⊎ ((d.status ≡ DeliveryStatus.delivering) × HasCome now d.lease_expires_at)
is_deliverable-HasCome now d h =
    ground (arith, h, due-HasCome now d.next_retry_at, due-HasCome now d.lease_expires_at)

active_endpoint :
    (k : ℕ) (e : WebhookEndpoint)
    → (e.id == k && is_active e.status) ≡ true
    → (e.id ≡ k) × (e.status ≡ EndpointStatus.active)
active_endpoint k e h = ground (arith, h)

both_true : (a b : Bool) → (a && b) ≡ true → (a ≡ true) × (b ≡ true)
both_true a b h = ground (arith, h)

claimable-IsClaimableDelivery :
    (now : ℕ) (db : Session) (d : WebhookDelivery)
    → claimable_delivery now db d ≡ true
    → IsClaimableDelivery now db d
claimable-IsClaimableDelivery now db d h =
    let parts = both_true _ _ h in
    let seen =
      any_sound (λ e. e.id == d.webhook_endpoint_id && is_active e.status) db.endpoints parts.1 in
    let found = active_endpoint d.webhook_endpoint_id seen.0 seen.2 in
    (is_deliverable-HasCome now d parts.0, (seen.0, seen.1, found.0, found.1))

-- Whatever limit is asked for, a claim takes at most 100 deliveries, at most the configured number
-- (and at least one) for each endpoint, and only such as are queued or scheduled and due, or are
-- being delivered under a lease that has ended, and whose endpoint is stored and active.
pub claim_deliveries_bounds :
    (settings : Settings) (null_time now limit : ℕ) (db : Session)
    → (length (claimed_deliveries settings null_time now limit db) ≤ 100)
      × ((k : ℕ)
          → to_endpoint k (claimed_deliveries settings null_time now limit db)
            ≤ max settings.webhook_claim_per_endpoint 1)
      × All (IsClaimableDelivery now db) (claimed_deliveries settings null_time now limit db)
unfolding claimed_deliveries
claim_deliveries_bounds settings null_time now limit db =
    let sorted = by_retry_time null_time (select (claimable_delivery now db) db.deliveries) in
    let per_endpoint = max settings.webhook_claim_per_endpoint 1 in
    let ranked = first_ranked per_endpoint [] sorted in
    (
      omega (arith, length-take-le (page limit) ranked),
      λ k.
          omega
            (arith, to_endpoint-take k (page limit) ranked, ranked_bound k per_endpoint [] sorted),
      All-map _ _ (take (page limit) ranked) (claimable-IsClaimableDelivery now db) (
          take-All _ (page limit) _ (
            ranked-All _ per_endpoint [] _ (
              sort_by-All (retry_time null_time) _ _ (
                sort_by-All (λ d. d.created_at) _ _
                  (select-All (claimable_delivery now db) db.deliveries))))),
    )
