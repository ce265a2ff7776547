-- ===== src/Reversals/Worker.antt =====
-- `submit_claimed_reversal` of app/reversals.py, before and after the provider call.
use lynxpay.Service.{decrypted_reversal_credentials, decrypted_secrets}
use lynxpay.Reversals.Rows.{
  only_success, audit_reversal, save_reversal, reversal_merchant, original_payment,
  same_reversal_status,
}
use lynxpay.Reversals.{reversal_binding_error, BindingError}
use lynxpay.Model.{
  same_environment, Action, Payment, MerchantAccount, ReversalRequest, ReversalStatus, Session,
  Environment, DarajaCredential,
}
use lynxpay.Prelude.{
  ℕ, Bool, true, false, not, ◌&&◌, ◌==◌, has_id, same_text, truthy, String, Option, none, some,
  first, Result, ok, err, ◌>>◌, if◌then◌else◌,
}

-- The `snapshot` that the provider call reads, as far as the model has the columns.
pub record ReversalSnapshot : Type 0 where
  pub id : ℕ
  pub organization_id : ℕ
  pub merchant_account_id : ℕ
  pub environment : Environment
  pub transaction_id : Option String
  pub amount : ℕ

abbrev pub snapshot_of : ReversalRequest → Payment → MerchantAccount → ReversalSnapshot
snapshot_of r payment merchant = record {
  id = r.id;
  organization_id = r.organization_id;
  merchant_account_id = r.merchant_account_id;
  environment = merchant.environment;
  transaction_id = payment.mpesa_receipt_number;
  amount = r.amount;
}

abbrev pub submission_failed : ℕ → ReversalRequest → ReversalRequest
submission_failed now r = record r {
  status = ReversalStatus.failed;
  completed_at = some now;
  lease_owner = none;
  lease_expires_at = none;
}

abbrev pub submitting_since : ℕ → ReversalRequest → ReversalRequest
submitting_since now r = record r {
  status = ReversalStatus.submitting;
  submission_started_at = some now;
}

-- The two credential sets decrypt.
abbrev pub secrets_ready : DarajaCredential → Result (Unit {0})
secrets_ready credential = decrypted_secrets credential >> decrypted_reversal_credentials credential

unfoldable pub start_receipt :
    ℕ
    → ReversalRequest
    → Payment
    → MerchantAccount
    → Session
    → Bool
    → Option ReversalSnapshot × Session
start_receipt now r payment merchant db false = (none, save_reversal (submission_failed now r) db)
start_receipt now r payment merchant db true =
    (some (snapshot_of r payment merchant), save_reversal (submitting_since now r) db)

unfoldable pub start_decrypted :
    ℕ
    → ReversalRequest
    → Payment
    → MerchantAccount
    → Session
    → Result (Unit {0})
    → Option ReversalSnapshot × Session
start_decrypted now r payment merchant db (err e) =
    (none, save_reversal (submission_failed now r) db)
start_decrypted now r payment merchant db (ok _) =
    start_receipt now r payment merchant db (truthy payment.mpesa_receipt_number)

-- The query of the credential, whose filter is false where there is no merchant.
abbrev pub reversal_credential : ReversalRequest → MerchantAccount → DarajaCredential → Bool
reversal_credential r merchant c =
    c.merchant_account_id == r.merchant_account_id
    && same_environment c.environment merchant.environment
    && c.is_active

unfoldable pub start_credential :
    ℕ
    → ReversalRequest
    → Payment
    → MerchantAccount
    → Session
    → Option DarajaCredential
    → Option ReversalSnapshot × Session
start_credential now r payment merchant db none = (none, save_reversal (submission_failed now r) db)
start_credential now r payment merchant db (some credential) =
    start_decrypted now r payment merchant db (secrets_ready credential)

unfoldable pub start_merchant :
    ℕ
    → ReversalRequest
    → Payment
    → Session
    → Option MerchantAccount
    → Option ReversalSnapshot × Session
start_merchant now r payment db none = (none, save_reversal (submission_failed now r) db)
start_merchant now r payment db (some merchant) =
    start_credential now r payment merchant db
      (first (reversal_credential r merchant) db.credentials)

-- `if binding_error: …`; a payment that is missing has one.
unfoldable pub start_bound :
    ℕ
    → ReversalRequest
    → Session
    → Option BindingError
    → Option Payment
    → Option ReversalSnapshot × Session
start_bound now r db none (some payment) = start_merchant now r payment db (reversal_merchant db r)
start_bound now r db _ _ = (
  none,
  audit_reversal r Action.reversal_submission_binding_conflict
      (save_reversal (submission_failed now r) db),
)

unfoldable pub start_owned :
    ℕ → ReversalRequest → Session → Option Payment → Option ReversalSnapshot × Session
start_owned now r db payment =
    start_bound now r db (reversal_binding_error only_success r payment) payment

-- The lease of the worker on an approved reversal.
abbrev pub is_claimed_by : ℕ → ReversalRequest → Bool
is_claimed_by worker_id r =
    same_reversal_status r.status ReversalStatus.approved && has_id r.lease_owner worker_id

unfoldable pub start_found :
    ℕ → ℕ → Session → Option ReversalRequest → Option ReversalSnapshot × Session
start_found now worker_id db none = (none, db)
start_found now worker_id db (some r) =
    if is_claimed_by worker_id r
    then start_owned now r db (first (original_payment r) db.payments)
    else (none, db)

-- `submit_claimed_reversal` up to the commit before the provider call; `none` where the call is not
-- reached.
unfoldable pub start_submission : ℕ → ℕ → ℕ → Session → Option ReversalSnapshot × Session
start_submission now worker_id reversal_id db =
    start_found now worker_id db (first (λ r. r.id == reversal_id) db.reversals)

-- The end of the provider call: its two exceptions with their own handlers (any other exception is
-- handled as `uncertain`), or `ResponseCode` and the two conversation ids.
pub data Submission : Type 0 where
  not_sent uncertain : Submission
  answered : Option String → Option String → Option String → Submission

abbrev pub submission_outcome : Submission → ReversalStatus
submission_outcome Submission.not_sent = ReversalStatus.failed
submission_outcome Submission.uncertain = ReversalStatus.unknown
submission_outcome (Submission.answered code originator conversation) =
    if same_text code (some "0") then ReversalStatus.submitted else ReversalStatus.failed

abbrev pub submission_code : Submission → Option String
submission_code (Submission.answered code originator conversation) = code
submission_code _ = none

abbrev pub submission_originator : Submission → Option String
submission_originator (Submission.answered code originator conversation) = originator
submission_originator _ = none

abbrev pub submission_conversation : Submission → Option String
submission_conversation (Submission.answered code originator conversation) = conversation
submission_conversation _ = none

-- `now if test else None`
abbrev pub time_if : Bool → ℕ → Option ℕ
time_if true now = some now
time_if false now = none

abbrev pub submission_recorded : ℕ → Submission → ReversalRequest → ReversalRequest
submission_recorded now s r =
    let accepted = same_reversal_status (submission_outcome s) ReversalStatus.submitted in
    record r {
      status = submission_outcome s;
      response_code = submission_code s;
      originator_conversation_id = submission_originator s;
      conversation_id = submission_conversation s;
      submitted_at = time_if accepted now;
      completed_at = time_if (not accepted) now;
      lease_owner = none;
      lease_expires_at = none;
    }

-- The lease of the worker on a reversal that is being submitted.
abbrev pub is_submitted_by : ℕ → ReversalRequest → Bool
is_submitted_by worker_id r =
    same_reversal_status r.status ReversalStatus.submitting && has_id r.lease_owner worker_id

unfoldable pub finish_submission_found :
    ℕ → ℕ → Submission → Session → Option ReversalRequest → Option ReversalRequest × Session
finish_submission_found now worker_id s db none = (none, db)
finish_submission_found now worker_id s db (some r) =
    let r' = submission_recorded now s r in
    if is_submitted_by worker_id r
    then (some r', audit_reversal r' (Action.reversal r'.status) (save_reversal r' db))
    else (none, db)

-- `submit_claimed_reversal` after the provider call.
unfoldable pub finish_submission :
    ℕ → ℕ → ℕ → Submission → Session → Option ReversalRequest × Session
finish_submission now worker_id reversal_id s db =
    finish_submission_found now worker_id s db (first (λ r. r.id == reversal_id) db.reversals)
