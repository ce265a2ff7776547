-- ===== src/Reconciliation/Total.antt =====
-- Phase 2 raises nothing: every move that it asks of the state machine is allowed.
use lynxpay.Prelude.{
  ◌+◌, has_id, ◌<◌, if_both, true, ℕ, false, ◌≡◌, ◌⊎◌, Option, none, some, String, Result, ok, err,
  arith,
}
use lynxpay.Model.{
  ReviewReason, ReviewStatus, CheckOutcome, Session, in_flight, Payment, PaymentStatus, Settings,
}
use lynxpay.StateMachine.{transition_payment}
use lynxpay.ProviderCodes.{classify_mpesa_result}
use lynxpay.Service.{transition_and_record}
use lynxpay.Callbacks.{is_zero, failure_target, move_to}
use lynxpay.Reconciliation.{
  schedule_checked, finish_found, finish_reconcile, reconciliation_delay_seconds, commit_check,
  Snapshot, Answer, Work, settle_success, settle_other, settle, schedule, conclude,
}

-- A result, not an error.
abbrev pub IsOk {ℓ} : {A : Type ℓ} → Result A → Type 0
IsOk (ok a) = Unit
IsOk (err e) = ⊥

-- The provider's classes other than success.
pub classify_other :
    (code : Option String)
    → is_zero code ≡ false
    → let t = (classify_mpesa_result code).target in
      (t ≡ PaymentStatus.failed) ⊎ (t ≡ PaymentStatus.timeout) ⊎ (t ≡ PaymentStatus.unknown)
unfolding classify_mpesa_result
classify_other none h = ground arith
classify_other (some code) h = ground arith

module _ (settings : Settings) (now : ℕ) (snapshot : Snapshot) (answer : Answer) where
  settle-IsOk : (w : Work) → IsOk (settle settings now snapshot answer w)
  unfolding settle settle_success settle_other failure_target move_to transition_and_record
      transition_payment
  settle-IsOk w = ground (arith, classify_other answer.code)

  schedule-IsOk : (w : Work) → IsOk (schedule settings now w)
  unfolding schedule transition_and_record transition_payment
  schedule-IsOk w = ground arith

  checked-IsOk : (r : Result Work) → IsOk r → IsOk (schedule_checked settings now snapshot answer r)
  unfolding schedule_checked
  checked-IsOk (ok w) h = schedule-IsOk _
  checked-IsOk (err e) h = h

  conclude-IsOk : (w : Work) → IsOk (conclude settings now snapshot answer w)
  unfolding conclude
  conclude-IsOk w = checked-IsOk _ (settle-IsOk w)

commit-IsOk : (db : Session) (r : Result Work) → IsOk r → IsOk (commit_check db r).0
unfolding commit_check
commit-IsOk db (ok w) h = tt
commit-IsOk db (err e) h = h

found-IsOk :
    (settings : Settings) (now : ℕ) (snapshot : Snapshot) (answer : Answer) (db : Session)
    (found : Option Payment)
    → IsOk (finish_found settings now snapshot answer db found).0
unfolding finish_found
found-IsOk settings now snapshot answer db none = tt
found-IsOk settings now snapshot answer db (some payment) =
    if_both (λ (r : Result (Option CheckOutcome) × Session). IsOk r.0)
      (has_id payment.reconciliation_lease_owner snapshot.owner)
      (commit-IsOk db _ (conclude-IsOk settings now snapshot _ _)) tt

-- Whatever the provider answers and whatever became of the payment since it was asked, phase 2
-- ends without an error: no move that it asks of the state machine is refused.
pub finish-IsOk :
    (settings : Settings) (now payment_id : ℕ) (snapshot : Snapshot) (answer : Answer)
    (db : Session)
    → IsOk (finish_reconcile settings now payment_id snapshot answer db).0
unfolding finish_reconcile
finish-IsOk settings now payment_id snapshot answer db =
    found-IsOk settings now snapshot answer db _

-- What the row is like when phase 2 has scheduled it: a settled one is not asked about again; one
-- in flight has a next check later than now and checks left, or is handed to a person with no
-- further check.
abbrev pub IsScheduled : Settings → ℕ → Payment → Type 0
IsScheduled settings now p =
    ((in_flight p.status ≡ false) × (p.next_reconciliation_at ≡ none))
    ⊎ ((in_flight p.status ≡ true)
        × (p.reconciliation_attempts < settings.reconciliation_max_attempts)
        × ((delay : ℕ) × (reconciliation_delay_seconds settings p now ≡ some delay)
            × (p.next_reconciliation_at ≡ some (now + delay))))
    ⊎ ((p.status ≡ PaymentStatus.unknown)
        × (p.next_reconciliation_at ≡ none)
        × (p.review_status ≡ ReviewStatus.needs_review)
        × (p.review_reason ≡ some ReviewReason.reconciliation_exhausted))

schedule-IsScheduled :
    (settings : Settings) (now : ℕ) (w w' : Work)
    → schedule settings now w ≡ ok w'
    → IsScheduled settings now w'.payment
unfolding schedule transition_and_record transition_payment reconciliation_delay_seconds
schedule-IsScheduled settings now w w' h = ground arith

checked-IsScheduled :
    (settings : Settings) (now : ℕ) (snapshot : Snapshot) (answer : Answer) (r : Result Work)
    (w' : Work)
    → schedule_checked settings now snapshot answer r ≡ ok w'
    → IsScheduled settings now w'.payment
unfolding schedule_checked
checked-IsScheduled settings now snapshot answer (ok w) w' h =
    schedule-IsScheduled settings now _ w' h
checked-IsScheduled settings now snapshot answer (err e) w' h = absurd (cc)

-- After the work of phase 2 on a row: an outcome that is known ends the checks; a row still in
-- flight has attempts left and is due again after the delay of its age, or is `unknown`, up for
-- manual review, and has no next check.
pub conclude-IsScheduled :
    (settings : Settings) (now : ℕ) (snapshot : Snapshot) (answer : Answer) (w w' : Work)
    → conclude settings now snapshot answer w ≡ ok w'
    → IsScheduled settings now w'.payment
unfolding conclude
conclude-IsScheduled settings now snapshot answer w w' h =
    checked-IsScheduled settings now snapshot answer _ w' h
