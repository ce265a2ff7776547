-- ===== src/Examples/Query.antt =====
-- The status query at the waiting payment.
use lynxpay.Service.{audit}
use lynxpay.Reconciliation.Claims.{claim_exclusive}
use lynxpay.Examples.Callback.{sent_db-IsCoupled}
use lynxpay.Reconciliation.Safety.{finish_moves, CheckMove}
use lynxpay.Reconciliation.Ledger.{finish-IsCoupled}
use lynxpay.Model.{Acceptance, Action, CheckOutcome, Rows}
use lynxpay.Prelude.{[], ◌∷◌, refl, none, arith, ok, false, true, ◌≡◌, contains, some, All}
use lynxpay.Service.Coupling.{IsCoupled}
use lynxpay.Reconciliation.Total.{finish-IsOk, conclude-IsScheduled, IsOk, IsScheduled}
use lynxpay.Reconciliation.{
  reconciliation_delay_seconds, schedule, claimable, record_check, claim_reconciliations, heard,
  unanswered, settle, schedule_checked, reacquired, Work, conclude, finish_reconcile,
}
use lynxpay.Examples.Data.{settings, sent, sent_db, snapshot, confirming}

finish_moves_example :
    Rows
      (CheckMove (heard snapshot confirming))
      sent_db.payments
      (finish_reconcile settings 1100 7 snapshot confirming sent_db).1.payments
finish_moves_example = finish_moves settings 1100 7 snapshot confirming sent_db (tt, tt)

finish-IsCoupled_example :
    IsCoupled (finish_reconcile settings 1100 7 snapshot confirming sent_db).1
finish-IsCoupled_example =
    finish-IsCoupled settings 1100 7 snapshot confirming sent_db sent_db-IsCoupled

finish-IsOk_example : IsOk (finish_reconcile settings 1100 7 snapshot confirming sent_db).0
finish-IsOk_example = finish-IsOk settings 1100 7 snapshot confirming sent_db

-- The provider does not answer.
abbrev asked : Work
asked = reacquired 1100 snapshot sent_db sent

abbrev asked_again : Work
asked_again = record asked {
  db = record sent_db {
    checks =
        record {
          payment_id = 7;
          checkout_request_id = some "ws_1";
          result_code = none;
          outcome = CheckOutcome.ambiguous;
          checked_at = 1100;
        }
        ∷ [];
    audits =
        record {
          organization_id = 2;
          merchant_account_id = some 1;
          action = Action.payment_status_reconciled;
          entity_id = 7;
        }
        ∷ [];
  };
  payment = record (asked.payment) {
    provider_acceptance_state = Acceptance.uncertain;
    next_reconciliation_at = some 1160;
  };
}

asked_concludes : conclude settings 1100 snapshot unanswered asked ≡ ok asked_again
unfolding conclude schedule_checked settle record_check schedule reconciliation_delay_seconds audit
asked_concludes = refl

conclude-IsScheduled_example : IsScheduled settings 1100 asked_again.payment
conclude-IsScheduled_example =
    conclude-IsScheduled settings 1100 snapshot unanswered asked asked_again asked_concludes

-- The lease of the payment has run out at 1300.
claim_exclusive_example :
    All
      (λ p.
        contains (claim_reconciliations settings 1300 6 20 sent_db).0 p.id ≡ true
        → claimable settings 1400 p ≡ false)
      (claim_reconciliations settings 1300 6 20 sent_db).1.payments
claim_exclusive_example = claim_exclusive settings 1300 1400 6 20 sent_db (omega arith)
