-- ===== src/Reconciliation/Finish.antt =====
-- Phase 2 of `reconcile_payment` as a whole: the row read again, the answer applied, the check
-- recorded and the next one scheduled, and the lease given back.
use lynxpay.Prelude.{
  Bool, ℕ, ◌+◌, ◌&&◌, ◌==◌, has_id, same_text, Option, none, some, ◌∷◌, first, Result, ok, err,
  if◌then◌else◌,
}
use lynxpay.Model.{
  Action, CheckOutcome, Payment, PaymentAttempt, PaymentStatusCheck, Session, Settings,
}
use lynxpay.Service.{audit_payment, save_payment}
use lynxpay.Callbacks.{save_matched}
use lynxpay.Reconciliation.Query.{Snapshot, Answer}
use lynxpay.Reconciliation.Settle.{Work, unanswered, settle, schedule}

-- The attempt of the request that was asked about.
abbrev queried_attempt : Snapshot → Payment → PaymentAttempt → Bool
queried_attempt snapshot payment attempt =
    attempt.payment_id == payment.id
    && same_text attempt.checkout_request_id snapshot.checkout_request_id

-- The row read again, with the check counted.
abbrev pub reacquired : ℕ → Snapshot → Session → Payment → Work
reacquired now snapshot db payment = record {
  db = db;
  payment = record payment {
    reconciliation_attempts = payment.reconciliation_attempts + 1;
    last_reconciled_at = some now;
  };
  attempt = first (queried_attempt snapshot payment) db.attempts;
  outcome = CheckOutcome.ambiguous;
}

-- What the provider said; without credentials it is not asked.
abbrev pub heard : Snapshot → Answer → Answer
heard snapshot answer = if snapshot.available then answer else unanswered

-- `db.add(check)` and the audit entry.
unfoldable pub record_check : ℕ → Snapshot → Answer → Work → Work
record_check now snapshot answer w =
    let check : PaymentStatusCheck = record {
      payment_id = w.payment.id;
      checkout_request_id = snapshot.checkout_request_id;
      result_code = answer.code;
      outcome = w.outcome;
      checked_at = now;
    } in
    record w {
      db =
          audit_payment w.payment Action.payment_status_reconciled w.payment.id
            (record (w.db) { checks = check ∷ w.db.checks });
    }

abbrev pub released : Payment → Payment
released payment = record payment {
  reconciliation_lease_owner = none;
  reconciliation_lease_expires_at = none;
}

-- The flush of the rows under way.
unfoldable pub write_back : Work → Session
write_back w = save_matched w.attempt (save_payment w.payment w.db)

unfoldable pub schedule_checked : Settings → ℕ → Snapshot → Answer → Result Work → Result Work
schedule_checked settings now snapshot answer (err e) = err e
schedule_checked settings now snapshot answer (ok w) =
    schedule settings now (record_check now snapshot answer w)

-- The work of phase 2 on the row.
unfoldable pub conclude : Settings → ℕ → Snapshot → Answer → Work → Result Work
conclude settings now snapshot answer w =
    schedule_checked settings now snapshot answer (settle settings now snapshot answer w)

-- The commit; an error rolls back.
unfoldable pub commit_check : Session → Result Work → Result (Option CheckOutcome) × Session
commit_check db (err e) = (err e, db)
commit_check db (ok w) =
    (ok (some w.outcome), write_back (record w { payment = released w.payment }))

-- `if not payment or payment.reconciliation_lease_owner != …: return None`
unfoldable pub finish_found :
    Settings
    → ℕ
    → Snapshot
    → Answer
    → Session
    → Option Payment
    → Result (Option CheckOutcome) × Session
finish_found settings now snapshot answer db none = (ok none, db)
finish_found settings now snapshot answer db (some payment) =
    if has_id payment.reconciliation_lease_owner snapshot.owner
    then commit_check db (
        conclude settings now snapshot (heard snapshot answer) (reacquired now snapshot db payment))
    else (ok none, db)

-- Phase 2: what `reconcile_payment` returns, and the session.
unfoldable pub finish_reconcile :
    Settings → ℕ → ℕ → Snapshot → Answer → Session → Result (Option CheckOutcome) × Session
finish_reconcile settings now payment_id snapshot answer db =
    finish_found settings now snapshot answer db (first (λ p. p.id == payment_id) db.payments)
