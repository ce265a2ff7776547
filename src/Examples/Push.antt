-- ===== src/Examples/Push.antt =====
-- Creations, retries and recoveries next to the waiting payment.
use lynxpay.Stk.Recovery.{abandon-IsCoupled, cut_off}
use lynxpay.Examples.Callback.{sent_db-IsCoupled}
use lynxpay.Stk.Ledger.{create-IsCoupled, retry-IsCoupled}
use lynxpay.Service.Coupling.{IsCoupled}
use lynxpay.Model.{EventType, Acceptance, AttemptStatus, PaymentStatus, Payment, Session}
use lynxpay.Stk.Guards.{retry_guards_iff, MayRetry}
use lynxpay.Stk.Total.{submit-IsCoupled}
use lynxpay.Prelude.{
  refl, none, arith, Ensures, some, ◌↔◌, [], ok, inl, false, ◌∷◌, ◌≡◌, true, Returns,
}
use lynxpay.Stk.{
  reopen_payment, open_payment, is_stale, abandon_stale_stk_submissions, retry_payment,
  submit_stk_attempt, StkWork, retry_guards, create_stk_push,
}
use lynxpay.Examples.Data.{
  settings, merchant, credential, sent, sent_attempt, sent_db, admin, taking, order,
}

abbrev pending_work : StkWork
pending_work = record {
  db = sent_db;
  payment = record sent { status = PaymentStatus.pending };
  attempt = sent_attempt;
}

abbrev sent_work : StkWork
sent_work = record { db = sent_db; payment = sent; attempt = sent_attempt }

submit-IsCoupled_example :
    IsCoupled (submit_stk_attempt settings 1100 merchant credential true taking sent_work).1
submit-IsCoupled_example =
    submit-IsCoupled settings 1100 merchant credential true taking sent_work sent_db-IsCoupled refl

create-IsCoupled_example :
    IsCoupled (create_stk_push settings 1100 admin false false taking order sent_db).1
create-IsCoupled_example =
    create-IsCoupled settings 1100 admin false false taking order sent_db sent_db-IsCoupled refl

abbrev lost : Payment
lost = record sent {
  status = PaymentStatus.unknown;
  provider_acceptance_state = Acceptance.uncertain;
}

abbrev lost_db : Session
lost_db = record sent_db {
  payments = lost ∷ [];
  ledger =
      record {
        payment_id = 7;
        event_type = EventType.payment PaymentStatus.unknown;
        status_from = some PaymentStatus.stk_sent;
        status_to = PaymentStatus.unknown;
        amount = 10000;
        currency = "KES";
      }
      ∷ sent_db.ledger;
}

lost_db-IsCoupled : IsCoupled lost_db
lost_db-IsCoupled = record {
  linked = (refl, inl refl, sent_db-IsCoupled.linked);
  current = (refl, tt);
}

retry_guards_iff_example : (retry_guards true admin lost ≡ ok tt) ↔ MayRetry true admin lost
retry_guards_iff_example = retry_guards_iff true admin lost

retry-IsCoupled_example :
    IsCoupled (retry_payment settings 1300 admin 7 true false taking lost_db).1
retry-IsCoupled_example =
    retry-IsCoupled settings 1300 admin 7 true false taking lost_db lost_db-IsCoupled

-- An attempt that a crash left submitting.
abbrev stale_db : Session
stale_db = record sent_db {
  attempts = record sent_attempt { status = AttemptStatus.submitting } ∷ [];
}

stale_db-IsCoupled : IsCoupled stale_db
stale_db-IsCoupled = record {
  linked = sent_db-IsCoupled.linked;
  current = sent_db-IsCoupled.current;
}

abandon-IsCoupled_example :
    Returns (λ _. Unit) (abandon_stale_stk_submissions settings 2000 none stale_db).0
    × IsCoupled (abandon_stale_stk_submissions settings 2000 none stale_db).1
abandon-IsCoupled_example = abandon-IsCoupled settings 2000 none stale_db stale_db-IsCoupled

cut_off_example :
    Returns
      (λ w. (w.payment.status ≡ PaymentStatus.pending) × (is_stale settings 1400 w.attempt ≡ true))
      (open_payment 1000 merchant order sent_db)
    × Ensures
        (λ w.
          (w.payment.status ≡ PaymentStatus.pending) × (is_stale settings 1400 w.attempt ≡ false))
        (reopen_payment merchant sent_db lost)
cut_off_example = cut_off settings 1000 1400 merchant order sent_db lost (omega arith)
