-- ===== src/Stk/Abandon.antt =====
-- `abandon_stale_stk_submissions` of app/maintenance.py.
use lynxpay.Prelude.{
  ℕ, ◌-◌, min, max, Bool, true, false, ◌&&◌, ◌==◌, leb, Option, none, some, List, [], ◌∷◌, first,
  select, take, sort_by, Result, ok, err, if◌then◌else◌,
}
use lynxpay.Model.{
  PaymentStatus, same_status, ReviewReason, AttemptStatus, EventType, Action, Payment,
  PaymentAttempt, Session, Settings,
}
use lynxpay.Service.{audit, save_payment, save_attempt, transition_and_record, queue_webhooks}
use lynxpay.Stk.Submit.{doubtful}

abbrev is_submitting : AttemptStatus → Bool
is_submitting AttemptStatus.submitting = true
is_submitting _ = false

-- `column <= cutoff`, which is not true of NULL; `now` is later than the timeout.
abbrev started_by : ℕ → Option ℕ → Bool
started_by cutoff none = false
started_by cutoff (some t) = leb t cutoff

-- The filter of the query.
abbrev pub is_stale : Settings → ℕ → PaymentAttempt → Bool
is_stale settings now attempt =
    is_submitting attempt.status
    && started_by (now - settings.stk_submitting_timeout_seconds) attempt.submission_started_at

abbrev pub started_at : PaymentAttempt → ℕ
started_at attempt = elim attempt.submission_started_at [ none ↦ 0 | some t ↦ t ]

-- `min(max(limit or settings.MAINTENANCE_BATCH_SIZE, 1), 500)`; a limit of 0 is no limit.
abbrev pub batch : Settings → Option ℕ → ℕ
batch settings none = min (max settings.maintenance_batch_size 1) 500
batch settings (some limit) =
    min (max (if limit == 0 then settings.maintenance_batch_size else limit) 1) 500

abbrev pub stale_attempts : Settings → ℕ → Option ℕ → Session → List PaymentAttempt
stale_attempts settings now limit db =
    take (batch settings limit) (sort_by started_at (select (is_stale settings now) db.attempts))

abbrev pub abandoned : ℕ → PaymentAttempt → PaymentAttempt
abandoned now attempt = record attempt {
  status = AttemptStatus.abandoned;
  abandoned_at = some now;
  response_description = some "Submission worker stopped before acceptance was recorded";
}

-- The payment of an abandoned attempt: `pending` becomes `unknown`, all else keeps its status.
unfoldable pub doubt_pending : Settings → ℕ → Session → Payment → Result (Session × Payment)
doubt_pending settings now db payment =
    if same_status payment.status PaymentStatus.pending
    then elim (transition_and_record now PaymentStatus.unknown
        (EventType.payment PaymentStatus.unknown) db payment) [
          | err e ↦ err e
          | ok (db, moved) ↦ ok (
            queue_webhooks settings now moved (EventType.payment PaymentStatus.unknown) db,
            moved,
          )
        ]
    else ok (db, payment)

unfoldable pub close_attempt : ℕ → PaymentAttempt → Result (Session × Payment) → Result Session
close_attempt now attempt (err e) = err e
close_attempt now attempt (ok (db, payment)) = ok (
    audit payment.organization_id (some payment.merchant_account_id) Action.stk_submission_abandoned
      attempt.id (save_attempt (abandoned now attempt) (save_payment payment db)))

-- The body of the loop, with the ids recovered so far.
unfoldable pub abandon_found :
    Settings → ℕ → PaymentAttempt → List ℕ × Session → Option Payment → Result (List ℕ × Session)
unfolding close_attempt
abandon_found settings now attempt (ids, db) none = ok (ids, db)
abandon_found settings now attempt (ids, db) (some payment) =
    elim (close_attempt now attempt (
      doubt_pending settings now db
        (doubtful ReviewReason.stale_stk_submission_abandoned payment))) [
          | err e ↦ err e
          | ok db ↦ ok (attempt.id ∷ ids, db)
        ]

-- The loop.
unfoldable pub abandon_all :
    Settings → ℕ → List PaymentAttempt → List ℕ × Session → Result (List ℕ × Session)
abandon_all settings now [] done = ok done
abandon_all settings now (attempt ∷ rest) (ids, db) =
    elim (abandon_found settings now attempt (ids, db)
      (first (λ p. p.id == attempt.payment_id) db.payments)) [
        | err e ↦ err e
        | ok done ↦ abandon_all settings now rest done
      ]

-- The ids recovered, newest first, and the session; an error rolls back.
unfoldable pub abandon_stale_stk_submissions :
    Settings → ℕ → Option ℕ → Session → Result (List ℕ) × Session
abandon_stale_stk_submissions settings now limit db =
    elim (abandon_all settings now (stale_attempts settings now limit db) ([], db)) [
      | err e ↦ (err e, db)
      | ok (ids, done) ↦ (ok ids, done)
    ]
