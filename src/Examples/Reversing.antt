-- ===== src/Examples/Reversing.antt =====
-- A reversal that is requested, approved by a second user, sent to the provider and confirmed.
use lynxpay.Reversals.Settle.{settle_reversal}
use lynxpay.Reversals.Success.{settle-Succeeds, Succeeds}
use lynxpay.Reversals.Again.{request_again}
use lynxpay.Reversals.Request.{
  reversible_payment, request_inactive, request_new, ReversalReply, new_reversal, request_checked,
  insert_reversal, request_found, ReversalRequestCreate, request_reversal, approve_reversal,
}
use lynxpay.Service.{decrypted_reversal_credentials, decrypted_secrets}
use lynxpay.Reversals.{reversal_binding_error}
use lynxpay.Reversals.Once.{submitted_once}
use lynxpay.Reversals.Callback.{receive_reversal_callback}
use lynxpay.Examples.Data.{merchant, entry, settings, sent_db, admin}
use lynxpay.Reversals.Sent.{start-Sends, Sends}
use lynxpay.Reversals.Invariant.{Steps-IsReversalState, Step-IsLifecycle, IsLifecycle}
use lynxpay.Reversals.Worker.{
  start_receipt, start_decrypted, start_credential, start_merchant, start_bound, start_owned,
  Submission, snapshot_of, finish_submission, start_found, start_submission,
}
use lynxpay.Reversals.Delivery.{ReversalDelivery}
use lynxpay.Reversals.Confirm.{receive-Effect, reversal_callback-IsCoupled, Effect}
use lynxpay.Stk.{Principal}
use lynxpay.Stk.Guards.{OrFails}
use lynxpay.Service.Coupling.{IsCoupled}
use lynxpay.Reversals.Reach.{Step, Steps, IsReversalState}
use lynxpay.Model.{PaymentStatus, ReversalStatus, CallbackType, Session}
use lynxpay.Examples.Reversal.{bound_request, paid_payment}
use lynxpay.Reversals.Review.{IsApproval, IsDenial, approve-IsApproval}
use lynxpay.Prelude.{Ensures, ok, ◌≡◌, refl, none, some, [], ◌∷◌, arith, true, false, inl}

-- The session: one approved reversal, leased to worker 5.
abbrev approved_db : Session
approved_db = record sent_db {
  next_id = 70;
  payments = paid_payment ∷ [];
  ledger = entry (some PaymentStatus.stk_sent) PaymentStatus.success ∷ sent_db.ledger;
  reversals = record bound_request { lease_owner = some 5; lease_expires_at = some 2000 } ∷ [];
}

-- The same before its approval.
abbrev waiting_db : Session
waiting_db = record approved_db {
  reversals =
      record bound_request {
        status = ReversalStatus.pending_approval;
        approved_by_user_id = none;
        approved_at = none;
      }
      ∷ [];
}

-- The same after the provider has taken it.
abbrev submitted_db : Session
submitted_db = record approved_db {
  reversals =
      record bound_request { status = ReversalStatus.submitted; conversation_id = some "AG_1" }
      ∷ [];
}

abbrev second : Principal
second = record admin { user_id = some 61 }

-- The callback that confirms it.
abbrev confirmation : ReversalDelivery
confirmation = record {
  oversized = false;
  allowed = true;
  fields = record {
    originator_conversation_id = none;
    conversation_id = some "AG_1";
    result_code = some "0";
    transaction_id = some "RKR1";
    transaction_status = "";
  };
}

approved_db-IsReversalState : IsReversalState approved_db
approved_db-IsReversalState = record {
  keyed = (tt, tt);
  fresh = (omega arith, tt);
  sound = ((refl, refl, refl), tt);
  single = (tt, tt);
}

approved_db-IsCoupled : IsCoupled submitted_db
approved_db-IsCoupled = record {
  linked = (refl, inl refl, (refl, inl refl, (refl, inl refl, (refl, refl, tt))));
  current = (refl, tt);
}

-- It is sent and taken, and the callback comes.
abbrev sent_once : Session
sent_once = (start_submission 1600 5 50 approved_db).1

abbrev taken : Session
taken =
    (finish_submission 1601 5 50 (Submission.answered (some "0") (some "O_1") (some "AG_1"))
      sent_once).1

abbrev confirmed : Session
confirmed =
    (receive_reversal_callback settings 1700 1 (some CallbackType.result) confirmation taken).1

to_taken : Steps settings sent_once taken
to_taken = Steps.later Steps.here (Step.finish 1601 5 50 _)

sent_snapshot :
    (start_submission 1600 5 50 approved_db).0
    ≡ some (snapshot_of bound_request paid_payment merchant)
unfolding start_submission start_found start_owned reversal_binding_error start_bound start_merchant
    start_credential start_decrypted start_receipt decrypted_secrets decrypted_reversal_credentials
sent_snapshot = refl

Step-IsLifecycle_example : IsLifecycle approved_db sent_once
Step-IsLifecycle_example =
    Step-IsLifecycle settings approved_db sent_once approved_db-IsReversalState
      (Step.start 1600 5 50)

Steps-IsReversalState_example : IsReversalState confirmed
Steps-IsReversalState_example =
    Steps-IsReversalState settings approved_db confirmed approved_db-IsReversalState (
      Steps.later
        (Steps.later (Steps.later Steps.here (Step.start 1600 5 50)) (Step.finish 1601 5 50 _))
        (Step.callback 1700 1 (some CallbackType.result) confirmation))

submitted_once_example : (start_submission 1800 6 50 taken).0 ≡ none
submitted_once_example =
    submitted_once settings 1600 1800 5 6 50 approved_db taken
      (snapshot_of bound_request paid_payment merchant) approved_db-IsReversalState sent_snapshot
      to_taken

start-Sends_example : Sends 1600 5 50 approved_db (start_submission 1600 5 50 approved_db)
start-Sends_example = start-Sends 1600 5 50 approved_db

approve-IsApproval_example :
    OrFails
      (IsDenial second 50 waiting_db)
      (IsApproval 1500 second 50 waiting_db)
      (approve_reversal 1500 second 50 waiting_db).0
approve-IsApproval_example = approve-IsApproval 1500 second 50 waiting_db

receive-Effect_example :
    Effect 1700 CallbackType.result confirmation submitted_db
      (receive_reversal_callback settings 1700 1
        (some CallbackType.result)
        confirmation
        submitted_db).1
receive-Effect_example =
    receive-Effect settings 1700 1 CallbackType.result confirmation submitted_db

reversal_callback-IsCoupled_example :
    IsCoupled
      (receive_reversal_callback settings 1700 1
        (some CallbackType.result)
        confirmation
        submitted_db).1
reversal_callback-IsCoupled_example =
    reversal_callback-IsCoupled settings 1700 1 (some CallbackType.result) confirmation submitted_db
      approved_db-IsCoupled

-- The session before anybody asks, and the request.
abbrev paid_db : Session
paid_db = record approved_db { reversals = [] }

abbrev order : ReversalRequestCreate
order = record { idempotency_digest = "digest"; fingerprint = "print" }

first_request : request_reversal 1400 admin 7 order paid_db ≡ (
  ok (ReversalReply.requested (new_reversal 1400 70 admin order paid_payment)),
  insert_reversal (new_reversal 1400 70 admin order paid_payment) paid_db,
)
unfolding request_reversal request_found request_checked request_new request_inactive
    reversible_payment
first_request = refl

request_again_example :
    request_reversal 1450 admin 7 order
      (insert_reversal (new_reversal 1400 70 admin order paid_payment) paid_db)
    ≡ (
      ok (ReversalReply.replayed (new_reversal 1400 70 admin order paid_payment)),
      insert_reversal (new_reversal 1400 70 admin order paid_payment) paid_db,
    )
request_again_example =
    request_again 1400 1450 admin 7 order paid_db (new_reversal 1400 70 admin order paid_payment)
      (insert_reversal (new_reversal 1400 70 admin order paid_payment) paid_db) first_request

settle-Succeeds_example :
    Ensures (Succeeds (record bound_request { status = ReversalStatus.submitted })) (
      settle_reversal settings 1700 CallbackType.result confirmation.fields
        (record bound_request { status = ReversalStatus.submitted })
        submitted_db)
settle-Succeeds_example =
    settle-Succeeds settings 1700 CallbackType.result confirmation.fields
      (record bound_request { status = ReversalStatus.submitted }) submitted_db
