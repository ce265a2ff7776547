-- ===== src/Reconciliation/Ledger.antt =====
-- Phase 2 and the ledger: its moves are recorded, and the coupling is kept.
use lynxpay.Prelude.{
  List, Bool, ℕ, ◌≡◌, refl, sym, ◌∙◌, inl, inr, Option, none, some, first, Result, ok, err, Ensures,
  Result-cases, if_both, has_id, arith,
}
use lynxpay.Model.{PaymentStatus, CheckOutcome, Payment, Session, Settings}
use lynxpay.StateMachine.{transition_payment}
use lynxpay.ProviderCodes.{classify_mpesa_result}
use lynxpay.Service.{
  transition_and_record, record_transition, ledger, audit, save_payment, save_attempt,
  queue_webhooks,
}
use lynxpay.Service.Coupling.{
  IsCoupled, Held, Held-edit, Held-found, IsCoupled-same, save-IsCoupled, ledger-save,
}
use lynxpay.Service.Recorded.{Recorded, Held-Recorded}
use lynxpay.Callbacks.{write_result, failure_target, move_to, save_matched}
use lynxpay.Reconciliation.{
  Snapshot, Answer, Work, settle_success, settle_other, settle, schedule, record_check, conclude,
  commit_check, finish_found, finish_reconcile, write_back, schedule_checked,
}

module _ (settings : Settings) (now : ℕ) (snapshot : Snapshot) (answer : Answer) where
  success-Recorded :
      (w w' : Work)
      → settle_success settings now answer w ≡ ok w'
      → Recorded w.db w.payment w'.db w'.payment
  unfolding settle_success transition_and_record transition_payment record_transition ledger audit
      queue_webhooks
  success-Recorded w w' h = ground arith

  move-Recorded :
      (t : PaymentStatus) (db : Session) (p : Payment) (r : Session × Payment)
      → move_to now t db p ≡ ok r
      → Recorded db p r.0 r.1
  unfolding move_to transition_and_record transition_payment record_transition ledger audit
  move-Recorded t db p r h = ground arith

  other-Recorded :
      (w w' : Work)
      → settle_other settings now answer w ≡ ok w'
      → Recorded w.db w.payment w'.db w'.payment
  unfolding settle_other queue_webhooks write_result
  other-Recorded w w' h =
      elim (Result-cases (
        move_to now (failure_target w.payment.status (classify_mpesa_result answer.code).target)
          w.db w.payment)) [
            | inr (e, q) ↦ absurd (ground (arith, h, q))
            | inl ((db, p), q) ↦ ground (arith, h, q, move-Recorded _ w.db w.payment (db, p) q)
          ]

  pub settle-Recorded :
      (w w' : Work)
      → settle settings now snapshot answer w ≡ ok w'
      → Recorded w.db w.payment w'.db w'.payment
  unfolding settle
  settle-Recorded w w' h = ground (arith, success-Recorded w w', other-Recorded w w')

  pub schedule-Recorded :
      (w w' : Work) → schedule settings now w ≡ ok w' → Recorded w.db w.payment w'.db w'.payment
  unfolding schedule transition_and_record transition_payment record_transition ledger audit
      queue_webhooks
  schedule-Recorded w w' h = ground arith

  checked_table :
      (rows : List Payment) (r : Result Work) (w' : Work)
      → Ensures (λ w. w.db.payments ≡ rows) r
      → schedule_checked settings now snapshot answer r ≡ ok w'
      → w'.db.payments ≡ rows
  unfolding schedule_checked record_check audit
  checked_table rows (err e) w' h k = absurd (cc)
  checked_table rows (ok w) w' h k = (schedule-Recorded _ w' k).0 ∙ h

  -- The table itself is written by `write_back` alone.
  pub conclude_table :
      (w w' : Work)
      → conclude settings now snapshot answer w ≡ ok w'
      → w'.db.payments ≡ w.db.payments
  unfolding conclude
  conclude_table w w' h =
      checked_table w.db.payments _ w' (kept (settle settings now snapshot answer w) refl) h
    where
      kept :
          (r : Result Work)
          → settle settings now snapshot answer w ≡ r
          → Ensures (λ w'. w'.db.payments ≡ w.db.payments) r
      kept (ok w') e = (settle-Recorded w w' e).0
      kept (err x) e = tt

  module _ (start : Session) (before : Payment) where
    abbrev IsHeld : Work → Type 0
    IsHeld w = Held start before w.db w.payment

    schedule-Held : (w : Work) → IsHeld w → Ensures IsHeld (schedule settings now w)
    schedule-Held w h = elim (Result-cases (schedule settings now w)) [
      | inr (e, q) ↦ rw q tt
      | inl (w', q) ↦ rw q (Held-Recorded h (schedule-Recorded w w' q))
    ]

    checked-Held :
        (r : Result Work)
        → Ensures IsHeld r
        → Ensures IsHeld (schedule_checked settings now snapshot answer r)
    unfolding schedule_checked record_check audit
    checked-Held (err e) h = h
    checked-Held (ok w) h = schedule-Held _ (Held-edit h refl refl refl refl)

    pub conclude-Held :
        (w : Work) → IsHeld w → Ensures IsHeld (conclude settings now snapshot answer w)
    unfolding conclude schedule_checked
    conclude-Held w h = elim (Result-cases (settle settings now snapshot answer w)) [
      | inr (e, q) ↦ rw q tt
      | inl (w', q) ↦ rw q (checked-Held (ok w') (Held-Recorded h (settle-Recorded w w' q)))
    ]

pub write_back_tables :
    (w : Work)
    → ((write_back w).ledger ≡ w.db.ledger)
      × ((write_back w).payments ≡ (save_payment w.payment w.db).payments)
unfolding write_back save_matched save_payment save_attempt
write_back_tables w = ground arith

write_back-IsCoupled :
    {start : Session} {before : Payment} (w : Work)
    → IsCoupled start
    → Held start before w.db w.payment
    → IsCoupled (write_back w)
write_back-IsCoupled w c h =
    let (el, ep) = write_back_tables w in
    IsCoupled-same (save-IsCoupled c h) (el ∙ sym (ledger-save w.payment w.db)) ep

commit-IsCoupled :
    (before : Payment) (db : Session) (r : Result Work)
    → IsCoupled db
    → Ensures (λ w. Held db before w.db w.payment) r
    → IsCoupled (commit_check db r).1
unfolding commit_check
commit-IsCoupled before db (err e) c h = c
commit-IsCoupled before db (ok w) c h = write_back-IsCoupled _ c (Held-edit h refl refl refl refl)

found-IsCoupled :
    (settings : Settings) (now : ℕ) (snapshot : Snapshot) (answer : Answer) (db : Session)
    (test : Payment → Bool) (found : Option Payment)
    → first test db.payments ≡ found
    → IsCoupled db
    → IsCoupled (finish_found settings now snapshot answer db found).1
unfolding finish_found
found-IsCoupled settings now snapshot answer db test none e c = c
found-IsCoupled settings now snapshot answer db test (some payment) e c =
    if_both (λ (r : Result (Option CheckOutcome) × Session). IsCoupled r.1)
      (has_id payment.reconciliation_lease_owner snapshot.owner)
      (commit-IsCoupled payment db _ c (
        conclude-Held settings now snapshot _ db payment _
          (Held-edit (Held-found test c e) refl refl refl refl)))
      c

-- Whatever the provider answers, phase 2 keeps the ledger linked and showing the status of every
-- payment.
pub finish-IsCoupled :
    (settings : Settings) (now payment_id : ℕ) (snapshot : Snapshot) (answer : Answer)
    (db : Session)
    → IsCoupled db
    → IsCoupled (finish_reconcile settings now payment_id snapshot answer db).1
unfolding finish_reconcile
finish-IsCoupled settings now payment_id snapshot answer db c =
    found-IsCoupled settings now snapshot answer db _ _ refl c
