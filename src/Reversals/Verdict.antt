-- ===== src/Reversals/Verdict.antt =====
-- What a callback makes of its reversal, and what it leaves of the table and of the key counter.
use lynxpay.Reversals.{BindingError}
use lynxpay.Reversals.Matching.{succeeded_with-Moves, moved_to-Moves}
use lynxpay.Reversals.Life.{Moves}
use lynxpay.Reversals.Rows.{is_queryable}
use lynxpay.Model.{
  ReversalStatus, CallbackType, ReversalRequest, PaymentStatus, same_status, WebhookDelivery,
  WebhookEndpoint, EventType, Payment, Settings, Session,
}
use lynxpay.Reversals.Matching.{resulted_in-Moves}
use lynxpay.Reversals.Delivery.{ResultFields}
use lynxpay.Reversals.Settle.{
  confirm_reversal, status_or_unknown, status_inconclusive, confirmed_with, result_or_failure,
  Settled, confirm_bound, settle_reversal, queue_moved, reverse_payment,
}
use lynxpay.Service.{
  new_delivery, listens, save_payment, audit, ledger, record_transition, transition_and_record,
  queue_from, queue_webhooks,
}
use lynxpay.Prelude.{
  Ensures, ℕ, ◌+◌, Bool, true, false, ◌≡◌, ◌≤◌, refl, Option, none, some, List, [], ◌∷◌, Ensures,
  arith, Result, ok, err, if_both, if◌then◌else◌,
}

-- The keys that new deliveries take.
queue_from-next :
    (settings : Settings) (now : ℕ) (payment : Payment) (event : EventType)
    (endpoints : List WebhookEndpoint) (key : ℕ) (queue : List WebhookDelivery)
    → key ≤ (queue_from settings now payment event endpoints key queue).0
unfolding queue_from
queue_from-next settings now payment event [] key queue = omega arith
queue_from-next settings now payment event (endpoint ∷ rest) key queue =
    either (λ k q. queue_from-next settings now payment event rest k q)
      (listens event payment endpoint)
  where
    more : List WebhookDelivery
    more = new_delivery settings now payment event key endpoint ∷ queue

    either :
        ((k : ℕ) (q : List WebhookDelivery)
          → k ≤ (queue_from settings now payment event rest k q).0)
        → (takes : Bool)
        → key
          ≤ (queue_from settings now payment event rest
              (if takes then key + 1 else key)
              (if takes then more else queue)).0
    either later true = omega (arith, later (key + 1) more)
    either later false = later key queue

queue-next :
    (settings : Settings) (now : ℕ) (payment : Payment) (event : EventType) (db : Session)
    → db.next_id ≤ (queue_webhooks settings now payment event db).next_id
unfolding queue_webhooks
queue-next settings now payment event db =
    queue_from-next settings now payment event _ db.next_id db.deliveries

-- What the confirmation leaves of the reversals' table and the key counter.
abbrev pub Keeps : Session → Session → Type 0
Keeps db d = (d.reversals ≡ db.reversals) × (db.next_id ≤ d.next_id)

transition-Keeps :
    (now : ℕ) (db : Session) (payment : Payment)
    → Ensures
        (λ w. Keeps db w.0)
        (transition_and_record now PaymentStatus.reversed
          (EventType.payment PaymentStatus.reversed)
          db
          payment)
unfolding transition_and_record record_transition ledger audit
transition-Keeps now db payment = ground arith

queue_moved-Keeps :
    (settings : Settings) (now : ℕ) (db : Session) (moved : Result (Session × Payment))
    → Ensures (λ w. Keeps db w.0) moved
    → Ensures (Keeps db) (queue_moved settings now moved)
unfolding queue_moved save_payment
queue_moved-Keeps settings now db (err e) h = tt
queue_moved-Keeps settings now db (ok (d, p)) h = (
  unfold queue_webhooks in h.0,
  omega (
    arith,
    h.1,
    queue-next settings now p (EventType.payment PaymentStatus.reversed) (save_payment p d),
  ),
)

reverse_payment-Keeps :
    (settings : Settings) (now : ℕ) (payment : Payment) (db : Session)
    → Ensures (Keeps db) (reverse_payment settings now payment db)
unfolding reverse_payment
reverse_payment-Keeps settings now payment db =
    if_both (Ensures (Keeps db)) (same_status payment.status PaymentStatus.success)
      (queue_moved-Keeps settings now db _ (transition-Keeps now db payment)) (refl, omega arith)

-- What the handler makes of the reversal that it found.
abbrev pub Settles : Session → ReversalRequest → Settled → Type 0
Settles db r s = Keeps db s.db × (is_queryable r.status ≡ true → Moves r s.reversal)

module _ (settings : Settings) (now : ℕ) (fields : ResultFields) (r : ReversalRequest)
    (db : Session) where
  confirm-Settles :
      (kind : CallbackType) (bound : Option BindingError) (payment : Option Payment)
      → Ensures (Settles db r) (confirm_bound settings now kind fields r db bound payment)
  unfolding confirm_bound confirmed_with
  confirm-Settles kind (some error) payment =
      ((refl, omega arith), moved_to-Moves now ReversalStatus.unknown r refl)
  confirm-Settles kind none none = tt
  confirm-Settles kind none (some payment) = done _ (reverse_payment-Keeps settings now payment db)
    where
      done :
          (reversed : Result Session)
          → Ensures (Keeps db) reversed
          → Ensures (Settles db r) (confirmed_with now kind fields r reversed)
      done (err e) h = tt
      done (ok d) h = (h, succeeded_with-Moves now kind fields r)

  result_or_failure-Settles :
      (confirmed : Bool)
      → Ensures (Settles db r) (result_or_failure settings now fields r db confirmed)
  unfolding result_or_failure confirm_reversal
  result_or_failure-Settles true = confirm-Settles CallbackType.result _ _
  result_or_failure-Settles false =
      ((refl, omega arith), resulted_in-Moves now ReversalStatus.failed fields r refl)

  status_or_unknown-Settles :
      (confirmed : Bool)
      → Ensures (Settles db r) (status_or_unknown settings now fields r db confirmed)
  unfolding status_or_unknown confirm_reversal
  status_or_unknown-Settles true = confirm-Settles CallbackType.status_result _ _
  status_or_unknown-Settles false =
      ((refl, omega arith), resulted_in-Moves now ReversalStatus.unknown fields r refl)

  status_inconclusive-Settles :
      (zero_code : Bool)
      → Ensures (Settles db r) (status_inconclusive settings now fields r db zero_code)
  unfolding status_inconclusive
  status_inconclusive-Settles true = status_or_unknown-Settles _
  status_inconclusive-Settles false =
      ((refl, omega arith), resulted_in-Moves now ReversalStatus.unknown fields r refl)

  pub settle-Settles :
      (kind : CallbackType) → Ensures (Settles db r) (settle_reversal settings now kind fields r db)
  unfolding settle_reversal
  settle-Settles CallbackType.timeout =
      ((refl, omega arith), moved_to-Moves now ReversalStatus.timeout r refl)
  settle-Settles CallbackType.status_timeout =
      ((refl, omega arith), moved_to-Moves now ReversalStatus.unknown r refl)
  settle-Settles CallbackType.result = result_or_failure-Settles _
  settle-Settles CallbackType.status_result = status_inconclusive-Settles _
