-- ===== src/Webhooks/Deliver.antt =====
-- `_retry_delay` and `deliver_claimed`, in its two transactions. While the request is out no other
-- change of the delivery and its endpoint is modelled.
use lynxpay.Prelude.{
  ℕ, ◌+◌, ◌-◌, ◌*◌, ◌^◌, min, Bool, true, false, ◌&&◌, ◌==◌, leb, ltb, has_id, Option, none, some,
  ◌∷◌, first, update, if◌then◌else◌,
}
use lynxpay.Model.{
  EndpointStatus, DeliveryStatus, DeliveryAttemptStatus, Action, WebhookEndpoint, WebhookDelivery,
  WebhookDeliveryAttempt, Session, Settings,
}
use lynxpay.Service.{audit, is_active}

-- `capped + secrets.randbelow(…)`; `jitter` is the random number.
unfoldable pub retry_delay : Settings → ℕ → ℕ → ℕ
retry_delay settings attempt jitter =
    min (settings.webhook_retry_base_seconds * 2 ^ (attempt - 1)) (24 * 60 * 60) + jitter

-- The end of `send_webhook`: a status code, or any exception.
pub data WebhookAnswer : Type 0 where
  responded : ℕ → WebhookAnswer
  raised : WebhookAnswer

-- The rows under way.
pub record Sending : Type 0 where
  pub delivery : WebhookDelivery
  pub endpoint : Option WebhookEndpoint
  pub attempt : WebhookDeliveryAttempt

-- `if not endpoint or endpoint.status != "active": raise`
unfoldable pub heard_webhook : Option WebhookEndpoint → WebhookAnswer → WebhookAnswer
heard_webhook none answer = raised
heard_webhook (some endpoint) answer = if is_active endpoint.status then answer else raised

abbrev pub is_2xx : ℕ → Bool
is_2xx code = leb 200 code && ltb code 300

abbrev reset_endpoint : Option WebhookEndpoint → Option WebhookEndpoint
reset_endpoint none = none
reset_endpoint (some endpoint) =
    some (record endpoint { consecutive_failures = 0; paused_at = none })

-- The `try` statement.
unfoldable pub record_response : ℕ → ℕ → WebhookAnswer → Sending → Sending
record_response now later raised s = record s {
  attempt = record (s.attempt) { status = DeliveryAttemptStatus.failed; finished_at = some later };
}
record_response now later (responded code) s =
    if is_2xx code
    then record {
      delivery = record (s.delivery) {
        response_status_code = some code;
        status = DeliveryStatus.delivered;
        delivered_at = some now;
        next_retry_at = none;
      };
      endpoint = reset_endpoint s.endpoint;
      attempt = record (s.attempt) {
        status = DeliveryAttemptStatus.delivered;
        response_status_code = some code;
        finished_at = some later;
      };
    }
    else record {
      delivery = record (s.delivery) { response_status_code = some code };
      endpoint = s.endpoint;
      attempt = record (s.attempt) {
        status = DeliveryAttemptStatus.failed;
        response_status_code = some code;
        finished_at = some later;
      };
    }

abbrev pub has_failed : DeliveryAttemptStatus → Bool
has_failed DeliveryAttemptStatus.failed = true
has_failed _ = false

-- One more failure of an active endpoint, which at the limit is paused.
failed_endpoint : Settings → ℕ → WebhookEndpoint → WebhookEndpoint
failed_endpoint settings later endpoint =
    if leb settings.webhook_auto_pause_failures (endpoint.consecutive_failures + 1)
    then record endpoint {
      consecutive_failures = endpoint.consecutive_failures + 1;
      status = EndpointStatus.paused;
      paused_at = some later;
    }
    else record endpoint { consecutive_failures = endpoint.consecutive_failures + 1 }

-- Whether this failure pauses the endpoint.
abbrev pub pauses : Settings → DeliveryAttemptStatus → Option WebhookEndpoint → Bool
pauses settings status none = false
pauses settings status (some endpoint) =
    has_failed status
    && is_active endpoint.status
    && leb settings.webhook_auto_pause_failures (endpoint.consecutive_failures + 1)

counted_endpoint :
    Settings → ℕ → DeliveryAttemptStatus → Option WebhookEndpoint → Option WebhookEndpoint
unfolding failed_endpoint
counted_endpoint settings later status none = none
counted_endpoint settings later status (some endpoint) =
    if has_failed status && is_active endpoint.status
    then some (failed_endpoint settings later endpoint)
    else some endpoint

-- `if attempt.status == "failed" and …`
unfoldable pub count_failure : Settings → ℕ → Sending → Sending
unfolding counted_endpoint
count_failure settings later s = record s {
  delivery =
      if pauses settings s.attempt.status s.endpoint
      then record (s.delivery) { status = DeliveryStatus.dead_letter }
      else s.delivery;
  endpoint = counted_endpoint settings later s.attempt.status s.endpoint;
}

abbrev pub is_over : DeliveryStatus → Bool
is_over DeliveryStatus.delivered = true
is_over DeliveryStatus.dead_letter = true
is_over _ = false

-- `if delivery.status not in {…}: …`
unfoldable pub schedule_delivery : Settings → ℕ → ℕ → WebhookDelivery → WebhookDelivery
schedule_delivery settings now jitter d =
    if is_over d.status
    then d
    else if leb d.max_attempts d.attempts
    then record d { status = DeliveryStatus.dead_letter; next_retry_at = none }
    else record d {
      status = DeliveryStatus.retry_scheduled;
      next_retry_at = some (now + retry_delay settings d.attempts jitter);
    }

-- The second transaction on the rows.
unfoldable pub conclude_delivery : Settings → ℕ → ℕ → ℕ → WebhookAnswer → Sending → Sending
conclude_delivery settings now later jitter answer s =
    let counted =
      count_failure settings later
        (record_response now later (heard_webhook s.endpoint answer) s) in
    record counted {
      delivery = record (schedule_delivery settings now jitter counted.delivery) {
        lease_owner = none;
        lease_expires_at = none;
      };
    }

-- The first transaction: the attempt is counted and stored.
abbrev pub start_delivery : ℕ → ℕ → WebhookDelivery → Option WebhookEndpoint → Sending
start_delivery now key d endpoint = record {
  delivery = record d { attempts = d.attempts + 1 };
  endpoint = endpoint;
  attempt = record {
    id = key;
    webhook_delivery_id = d.id;
    attempt_number = d.attempts + 1;
    status = DeliveryAttemptStatus.started;
    response_status_code = none;
    started_at = now;
    finished_at = none;
  };
}

save_endpoint : Option WebhookEndpoint → Session → Session
save_endpoint none db = db
save_endpoint (some endpoint) db = record db {
  endpoints = update (λ row. row.id == endpoint.id) (λ row. endpoint) db.endpoints;
}

audit_pause : Bool → Option WebhookEndpoint → Session → Session
audit_pause true (some endpoint) db =
    audit endpoint.organization_id endpoint.merchant_account_id Action.webhook_endpoint_auto_paused
      endpoint.id db
audit_pause paused endpoint db = db

-- The flush of the rows under way.
unfoldable pub save_sending : Bool → Sending → Session → Session
unfolding save_endpoint audit_pause
save_sending paused s db = audit_pause paused s.endpoint (
    save_endpoint s.endpoint (record db {
      next_id = s.attempt.id + 1;
      deliveries = update (λ row. row.id == s.delivery.id) (λ row. s.delivery) db.deliveries;
      delivery_attempts = s.attempt ∷ db.delivery_attempts;
    }))

abbrev pub is_delivering : DeliveryStatus → Bool
is_delivering DeliveryStatus.delivering = true
is_delivering _ = false

unfoldable pub deliver_found :
    Settings
    → ℕ
    → ℕ
    → ℕ
    → WebhookAnswer
    → Session
    → Option WebhookDelivery
    → Option WebhookDelivery × Session
deliver_found settings now later jitter answer db none = (none, db)
deliver_found settings now later jitter answer db (some d) =
    let endpoint = first (λ e. e.id == d.webhook_endpoint_id) db.endpoints in
    let started = start_delivery now db.next_id d endpoint in
    let responded = record_response now later (heard_webhook endpoint answer) started in
    let done = conclude_delivery settings now later jitter answer started in
    (
      some done.delivery,
      save_sending (pauses settings responded.attempt.status responded.endpoint) done db,
    )

-- `deliver_claimed`: the delivery it returns, and the session.
unfoldable pub deliver_claimed :
    Settings → ℕ → ℕ → ℕ → WebhookAnswer → ℕ → ℕ → Session → Option WebhookDelivery × Session
deliver_claimed settings now later jitter answer delivery_id worker_id db =
    deliver_found settings now later jitter answer db (
      first (λ d. d.id == delivery_id && is_delivering d.status && has_id d.lease_owner worker_id)
        db.deliveries)
