-- ===== src/Stk/Recovery.antt =====
-- The recovery of cut off submissions: it raises nothing, and keeps the ledger.
use lynxpay.Model.{PaymentStatus, ReviewReason, MerchantAccount}
use lynxpay.Stk.Submit.{doubtful}
use lynxpay.Prelude.{
  true, false, ◌≤◌, ◌-◌, Ensures, ℕ, Bool, ◌≡◌, refl, Option, none, some, Result, ok, err, Returns,
  List, [], ◌∷◌, arith, first,
}
use lynxpay.Model.{MerchantAccount, Payment, PaymentAttempt, Session, Settings}
use lynxpay.StateMachine.{begin_payment_retry, transition_payment}
use lynxpay.Service.{
  begin_retry_and_record, audit, ledger, save_payment, save_attempt, record_transition,
  transition_and_record, queue_webhooks,
}
use lynxpay.Service.Coupling.{
  IsCoupled, Held, Held-edit, Held-found, IsCoupled-same, save-IsCoupled,
}
use lynxpay.Service.Recorded.{Recorded, Held-Recorded}
use lynxpay.Stk.{
  is_stale, StkPushCreate, retry_attempt, reopen_payment, first_attempt, open_payment,
  abandon_found, abandon_all, abandon_stale_stk_submissions, doubt_pending, close_attempt,
  stale_attempts,
}

-- A pending payment becomes `unknown`; any other keeps its status.
doubt_pending-Recorded :
    (settings : Settings) (now : ℕ) (db : Session) (p : Payment)
    → Returns (λ r. Recorded db p r.0 r.1) (doubt_pending settings now db p)
unfolding doubt_pending transition_and_record transition_payment record_transition ledger audit
    queue_webhooks
doubt_pending-Recorded settings now db p = ground arith

close-IsCoupled :
    (now : ℕ) (attempt : PaymentAttempt) (start : Session) (before : Payment)
    (r : Result (Session × Payment))
    → IsCoupled start
    → Returns (λ x. Held start before x.0 x.1) r
    → Returns IsCoupled (close_attempt now attempt r)
unfolding close_attempt audit save_attempt save_payment
close-IsCoupled now attempt start before (err e) c h = h
close-IsCoupled now attempt start before (ok (db, p)) c h =
    IsCoupled-same (save-IsCoupled c h) refl refl

doubt-Held :
    (db : Session) (p p' : Payment) (r : Result (Session × Payment))
    → Held db p db p'
    → Returns (λ x. Recorded db p' x.0 x.1) r
    → Returns (λ x. Held db p x.0 x.1) r
doubt-Held db p p' (err e) h k = k
doubt-Held db p p' (ok (db', q)) h k = Held-Recorded h k

abbrev Kept : Result (List ℕ × Session) → Type 0
Kept (ok x) = IsCoupled x.1
Kept (err e) = ⊥

closed-Kept :
    (ids : List ℕ) (attempt : PaymentAttempt) (r : Result Session)
    → Returns IsCoupled r
    → Kept (elim r [ err e ↦ err e | ok db ↦ ok (attempt.id ∷ ids, db) ])
closed-Kept ids attempt (ok db) h = h
closed-Kept ids attempt (err e) h = h

abandon_found-IsCoupled :
    (settings : Settings) (now : ℕ) (attempt : PaymentAttempt) (ids : List ℕ) (db : Session)
    (test : Payment → Bool) (found : Option Payment)
    → first test db.payments ≡ found
    → IsCoupled db
    → Kept (abandon_found settings now attempt (ids, db) found)
unfolding abandon_found
abandon_found-IsCoupled settings now attempt ids db test none e c = c
abandon_found-IsCoupled settings now attempt ids db test (some p) e c =
    let q : Payment = doubtful ReviewReason.stale_stk_submission_abandoned p in
    closed-Kept ids attempt _ (
      close-IsCoupled now attempt db p _ c (
        doubt-Held db p q _ (Held-edit {p' = q} (Held-found test c e) refl refl refl refl)
          (doubt_pending-Recorded settings now db q)))

continue-IsCoupled :
    (settings : Settings) (now : ℕ) (rest : List PaymentAttempt) (r : Result (List ℕ × Session))
    → Kept r
    → ((ids : List ℕ) (db : Session)
        → IsCoupled db
        → Kept (abandon_all settings now rest (ids, db)))
    → Kept (elim r [ err e ↦ err e | ok done ↦ abandon_all settings now rest done ])
continue-IsCoupled settings now rest (ok (ids, db)) h k = k ids db h
continue-IsCoupled settings now rest (err e) h k = h

abandon_all-IsCoupled :
    (settings : Settings) (now : ℕ) (attempts : List PaymentAttempt) (ids : List ℕ) (db : Session)
    → IsCoupled db
    → Kept (abandon_all settings now attempts (ids, db))
unfolding abandon_all
abandon_all-IsCoupled settings now [] ids db c = c
abandon_all-IsCoupled settings now (attempt ∷ rest) ids db c =
    continue-IsCoupled settings now rest _
      (abandon_found-IsCoupled settings now attempt ids db _ _ refl c)
      (λ ids' db'. abandon_all-IsCoupled settings now rest ids' db')

-- The recovery returns ids, never an error, over any list of stale attempts, and keeps the ledger
-- linked and showing the status of every payment.
pub abandon-IsCoupled :
    (settings : Settings) (now : ℕ) (limit : Option ℕ) (db : Session)
    → IsCoupled db
    → Returns (λ _. Unit) (abandon_stale_stk_submissions settings now limit db).0
      × IsCoupled (abandon_stale_stk_submissions settings now limit db).1
unfolding abandon_stale_stk_submissions
abandon-IsCoupled settings now limit db c =
    ended _ (abandon_all-IsCoupled settings now (stale_attempts settings now limit db) [] db c)
  where
    ended :
        (r : Result (List ℕ × Session))
        → Kept r
        → let x : Result (List ℕ) × Session = elim r [
          | err e ↦ (err e, db)
          | ok (ids, done) ↦ (ok ids, done)
        ] in
          Returns (λ _. Unit) x.0 × IsCoupled x.1
    ended (ok (ids, done)) h = (tt, h)
    ended (err e) h = absurd h

-- A process that dies between the commit and the request leaves the rows as opened. The attempt of
-- a creation is then stale from the timeout on; the attempt of a retry, though its payment is
-- pending too, is never stale, at no time and under no settings.
pub cut_off :
    (settings : Settings) (now later : ℕ) (merchant : MerchantAccount) (payload : StkPushCreate)
    (db : Session) (p : Payment)
    → now ≤ later - settings.stk_submitting_timeout_seconds
    → Returns
        (λ w.
          (w.payment.status ≡ PaymentStatus.pending) × (is_stale settings later w.attempt ≡ true))
        (open_payment now merchant payload db)
      × Ensures
          (λ w.
            (w.payment.status ≡ PaymentStatus.pending)
            × (is_stale settings later w.attempt ≡ false))
          (reopen_payment merchant db p)
unfolding open_payment first_attempt reopen_payment retry_attempt transition_and_record
    transition_payment begin_retry_and_record begin_payment_retry
cut_off settings now later merchant payload db p h = (ground (arith, h), ground arith)
