-- ===== src/Reconciliation/Settle.antt =====
-- Phase 2 of `reconcile_payment`: the answer applied to the row as it stands by then. `none` as the
-- answer stands for every exception of the query, missing credentials among them.
use lynxpay.Prelude.{
  ℕ, ◌+◌, true, false, not, ◌||◌, leb, is_none, truthy, same_text, String, Option, none, some,
  Result, ok, err, if◌then◌else◌,
}
use lynxpay.Model.{
  PaymentStatus, same_status, in_flight, SuccessSource, ReceiptStatus, ReviewStatus, ReviewReason,
  Acceptance, AttemptStatus, EventType, Payment, PaymentAttempt, CheckOutcome, Session, Settings,
}
use lynxpay.ProviderCodes.{classify_mpesa_result}
use lynxpay.Service.{transition_and_record, queue_webhooks}
use lynxpay.Callbacks.{set_attempt, failure_target, move_to, write_result, attempt_result, is_zero}
use lynxpay.Reconciliation.Claim.{reconciliation_delay_seconds}
use lynxpay.Reconciliation.Query.{Snapshot, Answer}

-- The rows under way and the outcome of the check.
pub record Work : Type 0 where
  pub db : Session
  pub payment : Payment
  pub attempt : Option PaymentAttempt
  pub outcome : CheckOutcome

-- The columns of a success that the status query reports.
abbrev confirmed : ℕ → Option String → Option String → Payment → Payment
confirmed now code description payment =
    let has_receipt = truthy payment.mpesa_receipt_number in
    record payment {
      result_code = code;
      result_description = description;
      paid_at = some now;
      success_source = SuccessSource.status_query;
      provider_acceptance_state = Acceptance.accepted;
      receipt_status = if has_receipt then ReceiptStatus.present else ReceiptStatus.missing;
      review_status = if has_receipt then ReviewStatus.none else ReviewStatus.needs_review;
      review_reason =
          if has_receipt then none else some ReviewReason.status_query_success_missing_receipt;
    }

-- `elif code == "0": …`
unfoldable pub settle_success : Settings → ℕ → Answer → Work → Result Work
settle_success settings now answer w =
    elim (transition_and_record now PaymentStatus.success (EventType.payment PaymentStatus.success)
      w.db w.payment) [
        | err e ↦ err e
        | ok (db, moved) ↦
            let payment = confirmed now answer.code answer.description moved in
            ok (record {
              db = queue_webhooks settings now payment (EventType.payment PaymentStatus.success) db;
              payment = payment;
              attempt = set_attempt AttemptStatus.succeeded w.attempt;
              outcome = CheckOutcome.settled PaymentStatus.success;
            })
      ]

-- `elif code is not None: …`
unfoldable pub settle_other : Settings → ℕ → Answer → Work → Result Work
settle_other settings now answer w =
    let classified = classify_mpesa_result answer.code in
    let target = failure_target w.payment.status classified.target in
    elim (move_to now target w.db w.payment) [
      | err e ↦ err e
      | ok (db, moved) ↦
          let payment = write_result now target classified answer.code answer.description moved in
          ok (record {
            db = queue_webhooks settings now payment (EventType.payment target) db;
            payment = payment;
            attempt = set_attempt (attempt_result target) w.attempt;
            outcome = CheckOutcome.settled target;
          })
    ]

abbrev pub unanswered : Answer
unanswered = record { code = none; description = none }

-- The chain of `if … elif … else` on the evidence and the code.
unfoldable pub settle : Settings → ℕ → Snapshot → Answer → Work → Result Work
settle settings now snapshot answer w =
    if not (same_text w.payment.checkout_request_id snapshot.checkout_request_id)
      || not (in_flight w.payment.status)
    then ok (record w { outcome = CheckOutcome.superseded })
    else if is_zero answer.code
    then settle_success settings now answer w
    else if is_none answer.code
    then ok (record w {
      payment = record (w.payment) { provider_acceptance_state = Acceptance.uncertain };
    })
    else settle_other settings now answer w

-- The reconciliation is over: the payment goes to review, from `stk_sent` by way of `unknown`.
exhausted : Settings → ℕ → Work → Result Work
exhausted settings now w =
    let review = λ (p : Payment). record p {
      review_status = ReviewStatus.needs_review;
      review_reason = some ReviewReason.reconciliation_exhausted;
      next_reconciliation_at = none;
    } in
    elim (same_status w.payment.status PaymentStatus.stk_sent) [
      | false ↦ ok (record w { payment = review w.payment })
      | true ↦
          elim (transition_and_record now PaymentStatus.unknown
            (EventType.payment PaymentStatus.unknown) w.db w.payment) [
              | err e ↦ err e
              | ok (db, moved) ↦ ok (record w {
                db = queue_webhooks settings now moved (EventType.payment PaymentStatus.unknown) db;
                payment = review moved;
              })
            ]
    ]

-- The end of phase 2: the next check, or none.
unfoldable pub schedule : Settings → ℕ → Work → Result Work
unfolding exhausted
schedule settings now w =
    if in_flight w.payment.status
    then (if leb settings.reconciliation_max_attempts w.payment.reconciliation_attempts
        then exhausted settings now w
        else elim (reconciliation_delay_seconds settings w.payment now) [
          | none ↦ exhausted settings now w
          | some delay ↦ ok (record w {
            payment = record (w.payment) { next_reconciliation_at = some (now + delay) };
          })
        ])
    else ok (record w { payment = record (w.payment) { next_reconciliation_at = none } })
