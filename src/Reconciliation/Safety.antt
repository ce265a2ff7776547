-- ===== src/Reconciliation/Safety.antt =====
-- What the status query can do to a payment, and to which one.
use lynxpay.Prelude.{
  ℕ, false, true, ◌≡◌, refl, ◌≢◌, Option, none, some, first, Result, ok, err, Ensures, if_both,
  has_id, arith, Bool,
}
use lynxpay.Model.{
  PaymentStatus, in_flight, CheckOutcome, Payment, Session, Settings, IsKeyed, Rows, Rows-refl,
  write-Rows,
}
use lynxpay.StateMachine.{transition_payment}
use lynxpay.Service.{transition_and_record, save_payment}
use lynxpay.Callbacks.{is_zero, failure_target, move_to, write_result}
use lynxpay.Reconciliation.{
  released, Snapshot, Answer, Work, settle_success, settle_other, settle, schedule, record_check,
  conclude, commit_check, finish_found, finish_reconcile, reacquired, heard, schedule_checked,
}
use lynxpay.Reconciliation.Total.{classify_other}
use lynxpay.Reconciliation.Ledger.{write_back_tables, conclude_table}

-- What a check does to a payment: key, amount and receipt stay; a payment that is not in flight
-- keeps its status; and a payment becomes a success only on the provider's result code "0".
pub record CheckMove (answer : Answer) (p p' : Payment) : Type 0 where
  pub same_key : p'.id ≡ p.id
  pub same_amount : p'.amount ≡ p.amount
  pub same_receipt : p'.mpesa_receipt_number ≡ p.mpesa_receipt_number
  pub over : in_flight p.status ≡ false → p'.status ≡ p.status
  pub proven :
      p'.status ≡ PaymentStatus.success
      → p.status ≢ PaymentStatus.success
      → is_zero answer.code ≡ true

module _ (settings : Settings) (now : ℕ) (snapshot : Snapshot) (answer : Answer) where
  success_move :
      (w w' : Work)
      → in_flight w.payment.status ≡ true
      → is_zero answer.code ≡ true
      → settle_success settings now answer w ≡ ok w'
      → CheckMove answer w.payment w'.payment
  unfolding settle_success transition_and_record transition_payment
  success_move w w' f z h = ground arith

  other_move :
      (w w' : Work)
      → in_flight w.payment.status ≡ true
      → is_zero answer.code ≡ false
      → settle_other settings now answer w ≡ ok w'
      → CheckMove answer w.payment w'.payment
  unfolding settle_other failure_target move_to transition_and_record transition_payment
      write_result
  other_move w w' f z h = ground (arith, classify_other answer.code z)

  settle_move :
      (w w' : Work)
      → settle settings now snapshot answer w ≡ ok w'
      → CheckMove answer w.payment w'.payment
  unfolding settle
  settle_move w w' h = ground (arith, success_move w w', other_move w w')

  -- Scheduling keeps a settled payment, and makes no success.
  schedule_move :
      (w w' : Work) → schedule settings now w ≡ ok w' → CheckMove answer w.payment w'.payment
  unfolding schedule transition_and_record transition_payment
  schedule_move w w' h = ground arith

  CheckMove-trans :
      (p q r : Payment) → CheckMove answer p q → CheckMove answer q r → CheckMove answer p r
  CheckMove-trans p q r h k = ground (arith, h, k)

  checked_move :
      (p : Payment) (r : Result Work) (w' : Work)
      → Ensures (λ w. CheckMove answer p w.payment) r
      → schedule_checked settings now snapshot answer r ≡ ok w'
      → CheckMove answer p w'.payment
  unfolding schedule_checked record_check
  checked_move p (err e) w' h k = absurd (cc)
  checked_move p (ok w) w' h k = CheckMove-trans p w.payment w'.payment h (schedule_move _ w' k)

  conclude_move :
      (w w' : Work)
      → conclude settings now snapshot answer w ≡ ok w'
      → CheckMove answer w.payment w'.payment
  unfolding conclude
  conclude_move w w' h =
      checked_move w.payment _ w' (settled (settle settings now snapshot answer w) refl) h
    where
      settled :
          (r : Result Work)
          → settle settings now snapshot answer w ≡ r
          → Ensures (λ w'. CheckMove answer w.payment w'.payment) r
      settled (ok w') e = settle_move w w' e
      settled (err x) e = tt

CheckMove-refl : (answer : Answer) (p : Payment) → CheckMove answer p p
CheckMove-refl answer p = ground arith

-- Counting the check and giving back the lease change nothing of this.
released_move :
    {answer : Answer} (now : ℕ) (snapshot : Snapshot) (db : Session) (p q : Payment)
    → CheckMove answer (reacquired now snapshot db p).payment q
    → CheckMove answer p (released q)
released_move now snapshot db p q h = ground (arith, h)

commit_moves :
    (settings : Settings) (now : ℕ) (snapshot : Snapshot) (answer : Answer) (db : Session)
    (test : Payment → Bool) (p : Payment) (r : Result Work)
    → IsKeyed db.payments
    → first test db.payments ≡ some p
    → conclude settings now snapshot answer (reacquired now snapshot db p) ≡ r
    → Rows (CheckMove answer) db.payments (commit_check db r).1.payments
unfolding commit_check
commit_moves settings now snapshot answer db test p (err e) keyed found h =
    Rows-refl (CheckMove answer) (CheckMove-refl answer) db.payments
commit_moves settings now snapshot answer db test p (ok w) keyed found h =
    let table = conclude_table settings now snapshot answer (reacquired now snapshot db p) w h in
    let moved = conclude_move settings now snapshot answer (reacquired now snapshot db p) w h in
    rw ((write_back_tables (record w { payment = released w.payment })).1) (
      unfold save_payment in
      rw table (
        write-Rows (CheckMove answer) (CheckMove-refl answer) test p (released w.payment)
          db.payments keyed found moved.same_key (released_move now snapshot db p w.payment moved)))

found_moves :
    (settings : Settings) (now : ℕ) (snapshot : Snapshot) (answer : Answer) (db : Session)
    (test : Payment → Bool) (found : Option Payment)
    → IsKeyed db.payments
    → first test db.payments ≡ found
    → Rows
        (CheckMove (heard snapshot answer))
        db.payments
        (finish_found settings now snapshot answer db found).1.payments
unfolding finish_found
found_moves settings now snapshot answer db test none keyed found =
    Rows-refl (CheckMove _) (CheckMove-refl _) db.payments
found_moves settings now snapshot answer db test (some p) keyed found =
    if_both
      (λ (r : Result (Option CheckOutcome) × Session).
        Rows (CheckMove (heard snapshot answer)) db.payments r.1.payments)
      (has_id p.reconciliation_lease_owner snapshot.owner)
      (commit_moves settings now snapshot (heard snapshot answer) db test p _ keyed found refl)
      (Rows-refl (CheckMove _) (CheckMove-refl _) db.payments)

-- Over tables with distinct keys: after phase 2 every payment is in its place with its key, amount
-- and receipt; one that was no longer in flight (a callback came first) has its status; and one
-- that became a success did so on the provider's code "0", got with the merchant's credentials.
pub finish_moves :
    (settings : Settings) (now payment_id : ℕ) (snapshot : Snapshot) (answer : Answer)
    (db : Session)
    → IsKeyed db.payments
    → Rows
        (CheckMove (heard snapshot answer))
        db.payments
        (finish_reconcile settings now payment_id snapshot answer db).1.payments
unfolding finish_reconcile
finish_moves settings now payment_id snapshot answer db keyed =
    found_moves settings now snapshot answer db _ _ keyed refl
