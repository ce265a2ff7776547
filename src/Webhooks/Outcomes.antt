-- ===== src/Webhooks/Outcomes.antt =====
-- How a delivery ends, and what it does to its endpoint.
use lynxpay.Prelude.{
  refl, first_sound, has_id, first, ◌∙◌, ◌&&◌, ◌==◌, ℕ, ◌+◌, ◌*◌, ◌≤◌, ◌<◌, true, false, ◌≡◌, ◌⊎◌,
  Option, none, some, arith, max, Bool,
}
use lynxpay.Model.{
  EndpointStatus, Session, WebhookEndpoint, DeliveryStatus, WebhookDelivery, Settings,
}
use lynxpay.Webhooks.{
  raised, responded, start_delivery, is_delivering, heard_webhook, conclude_delivery,
  deliver_claimed, deliver_found, retry_delay, WebhookAnswer, Sending, is_2xx, record_response,
  count_failure, schedule_delivery,
}

-- The next attempt comes within a day and one base interval, whatever the attempt's number.
retry_delay_bound :
    (settings : Settings) (attempt jitter : ℕ)
    → jitter < max settings.webhook_retry_base_seconds 1
    → retry_delay settings attempt jitter < 24 * 60 * 60 + max settings.webhook_retry_base_seconds 1
unfolding retry_delay
retry_delay_bound settings attempt jitter h = omega (arith, h)

-- The receiver answered with a 2xx code.
abbrev pub took : Option ℕ → Bool
took none = false
took (some code) = is_2xx code

-- A time that is set, from `low` on and before `high`.
abbrev pub Within : ℕ → ℕ → Option ℕ → Type 0
Within low high none = ⊥
Within low high (some t) = (low ≤ t) × (t < high)

-- The columns that an attempt leaves, and its count.
abbrev pub Attempted : WebhookDelivery → WebhookDelivery → Type 0
Attempted d d' =
    (d'.id ≡ d.id)
    × (d'.payload ≡ d.payload)
    × (d'.max_attempts ≡ d.max_attempts)
    × (d'.attempts ≡ d.attempts + 1)

-- What a delivery is after an attempt: it holds no lease; it was delivered with a 2xx answer, is
-- given up, or waits for its next attempt with attempts left.
abbrev pub IsConcluded : Settings → ℕ → WebhookDelivery → Type 0
IsConcluded settings now d =
    (d.lease_owner ≡ none)
    × (d.lease_expires_at ≡ none)
    × (((d.status ≡ DeliveryStatus.delivered) × (took d.response_status_code ≡ true))
        ⊎ (d.status ≡ DeliveryStatus.dead_letter)
        ⊎ ((d.status ≡ DeliveryStatus.retry_scheduled)
            × (d.attempts < d.max_attempts)
            × Within now (now + (24 * 60 * 60 + max settings.webhook_retry_base_seconds 1))
                d.next_retry_at))

-- Between the answer and the schedule.
abbrev InHand : WebhookDelivery → Type 0
InHand d =
    ((d.status ≡ DeliveryStatus.delivered) × (took d.response_status_code ≡ true))
    ⊎ (d.status ≡ DeliveryStatus.dead_letter)
    ⊎ (d.status ≡ DeliveryStatus.delivering)

module _ (settings : Settings) (now later jitter : ℕ)
    (small : jitter < max settings.webhook_retry_base_seconds 1) where
  responded-InHand :
      (answer : WebhookAnswer) (s : Sending)
      → s.delivery.status ≡ DeliveryStatus.delivering
      → let d = (record_response now later answer s).delivery in
        InHand d
        × (d.id ≡ s.delivery.id)
        × (d.payload ≡ s.delivery.payload)
        × (d.max_attempts ≡ s.delivery.max_attempts)
        × (d.attempts ≡ s.delivery.attempts)
  unfolding record_response
  responded-InHand answer s h = ground arith

  counted-InHand :
      (s : Sending)
      → InHand s.delivery
      → let d = (count_failure settings later s).delivery in
        InHand d
        × (d.id ≡ s.delivery.id)
        × (d.payload ≡ s.delivery.payload)
        × (d.max_attempts ≡ s.delivery.max_attempts)
        × (d.attempts ≡ s.delivery.attempts)
  unfolding count_failure
  counted-InHand s h = ground (arith, h)

  scheduled-IsConcluded :
      (d : WebhookDelivery)
      → InHand d
      → let d' : WebhookDelivery = record (schedule_delivery settings now jitter d) {
        lease_owner = none;
        lease_expires_at = none;
      } in
        IsConcluded settings now d'
        × (d'.id ≡ d.id)
        × (d'.payload ≡ d.payload)
        × (d'.max_attempts ≡ d.max_attempts)
        × (d'.attempts ≡ d.attempts)
  unfolding schedule_delivery
  scheduled-IsConcluded d h = ground (arith, h, retry_delay_bound settings d.attempts jitter small)

  concluded :
      (answer : WebhookAnswer) (s : Sending)
      → s.delivery.status ≡ DeliveryStatus.delivering
      → let d = (conclude_delivery settings now later jitter answer s).delivery in
        IsConcluded settings now d
        × (d.id ≡ s.delivery.id)
        × (d.payload ≡ s.delivery.payload)
        × (d.max_attempts ≡ s.delivery.max_attempts)
        × (d.attempts ≡ s.delivery.attempts)
  unfolding conclude_delivery
  concluded answer s h =
      let heard = heard_webhook s.endpoint answer in
      let responded : Sending = record_response now later heard s in
      let (hand, i, p, m, a) = responded-InHand heard s h in
      let (hand', i', p', m', a') = counted-InHand responded hand in
      let (end, i'', p'', m'', a'') =
        scheduled-IsConcluded (count_failure settings later responded).delivery hand' in
      (end, i'' ∙ i' ∙ i, p'' ∙ p' ∙ p, m'' ∙ m' ∙ m, a'' ∙ a' ∙ a)

-- The claim of a worker on a delivery.
abbrev pub is_claimed : ℕ → ℕ → WebhookDelivery → Bool
is_claimed delivery_id worker_id d =
    d.id == delivery_id && is_delivering d.status && has_id d.lease_owner worker_id

claimed_status :
    (delivery_id worker_id : ℕ) (d : WebhookDelivery)
    → is_claimed delivery_id worker_id d ≡ true
    → d.status ≡ DeliveryStatus.delivering
claimed_status delivery_id worker_id d h = ground arith

-- What the worker gets back: nothing, or the claimed delivery after one attempt.
abbrev pub IsDelivery : Settings → ℕ → Option WebhookDelivery → Option WebhookDelivery → Type 0
IsDelivery settings now none none = Unit
IsDelivery settings now (some d) (some d') = Attempted d d' × IsConcluded settings now d'
IsDelivery settings now none (some d') = ⊥
IsDelivery settings now (some d) none = ⊥

found-IsDelivery :
    (settings : Settings) (now later jitter : ℕ) (answer : WebhookAnswer)
    (delivery_id worker_id : ℕ) (db : Session) (found : Option WebhookDelivery)
    → jitter < max settings.webhook_retry_base_seconds 1
    → first (is_claimed delivery_id worker_id) db.deliveries ≡ found
    → IsDelivery settings now found (deliver_found settings now later jitter answer db found).0
unfolding deliver_found
found-IsDelivery settings now later jitter answer delivery_id worker_id db none small e = tt
found-IsDelivery settings now later jitter answer delivery_id worker_id db (some d) small e =
    let (end, i, p, m, a) =
      concluded settings now later jitter small answer
        (start_delivery now db.next_id d (first (λ e. e.id == d.webhook_endpoint_id) db.endpoints))
        (claimed_status delivery_id worker_id d
          (first_sound (is_claimed delivery_id worker_id) db.deliveries d e)) in
    ((i, p, m, a), end)

-- With a jitter below the base interval: a worker that delivers gets nothing where it holds no claim. Else, whatever the receiver answers
-- and whatever became of the endpoint, one attempt is counted and the lease is given back: the
-- delivery was taken with a 2xx answer, is given up, or has attempts left and a next attempt, not
-- before now and within a day and one base interval.
pub deliver-IsDelivery :
    (settings : Settings) (now later jitter : ℕ) (answer : WebhookAnswer)
    (delivery_id worker_id : ℕ) (db : Session)
    → jitter < max settings.webhook_retry_base_seconds 1
    → IsDelivery settings now
        (first (is_claimed delivery_id worker_id) db.deliveries)
        (deliver_claimed settings now later jitter answer delivery_id worker_id db).0
unfolding deliver_claimed
deliver-IsDelivery settings now later jitter answer delivery_id worker_id db small =
    found-IsDelivery settings now later jitter answer delivery_id worker_id db _ small refl

-- An answer that counts as a success.
abbrev pub is_taken : WebhookAnswer → Bool
is_taken (responded code) = is_2xx code
is_taken raised = false

-- What an attempt makes of an active endpoint.
abbrev pub Counts :
    Settings → Bool → WebhookEndpoint → WebhookDelivery → Option WebhookEndpoint → Type 0
Counts settings success e d none = ⊥
Counts settings true e d (some e') =
    (e'.status ≡ e.status) × (e'.consecutive_failures ≡ 0) × (d.status ≡ DeliveryStatus.delivered)
Counts settings false e d (some e') =
    (e'.consecutive_failures ≡ e.consecutive_failures + 1)
    × (((e'.consecutive_failures < settings.webhook_auto_pause_failures) × (e'.status ≡ e.status))
        ⊎ ((settings.webhook_auto_pause_failures ≤ e'.consecutive_failures)
            × (e'.status ≡ EndpointStatus.paused)
            × (d.status ≡ DeliveryStatus.dead_letter)))

-- For an active endpoint and a delivery under way: a 2xx answer ends its run of failures; any other outcome adds one to the
-- run, and exactly where the run reaches the limit the endpoint is paused, and the delivery given up.
pub conclude-Counts :
    (settings : Settings) (now later jitter : ℕ) (answer : WebhookAnswer) (s : Sending)
    (e : WebhookEndpoint)
    → s.endpoint ≡ some e
    → e.status ≡ EndpointStatus.active
    → s.delivery.status ≡ DeliveryStatus.delivering
    → let s' = conclude_delivery settings now later jitter answer s in
      Counts settings (is_taken answer) e s'.delivery s'.endpoint
unfolding conclude_delivery record_response count_failure schedule_delivery heard_webhook
conclude-Counts settings now later jitter answer s e f a d = ground (arith, f, a, d)
