-- ===== src/Stk/Create.antt =====
-- `create_stk_push`: the checks, the idempotent replay, the new payment with its first attempt, and
-- the submission.
use lynxpay.Prelude.{
  false, true, ℕ, ◌+◌, Bool, not, ◌&&◌, ◌||◌, ◌==◌, text_eq, truthy, same_text, String, Option,
  none, some, List, ◌∷◌, first, Result, ok, err, http, ◌>>=◌, ◌>>◌, raise_if, if◌then◌else◌,
}
use lynxpay.Model.{
  PaymentStatus, Purpose, SuccessSource, ReceiptStatus, ReviewStatus, Acceptance, AttemptStatus,
  AttemptType, EventType, Action, MerchantStatus, MerchantAccount, DarajaCredential, Payment,
  PaymentAttempt, Session, Settings,
}
use lynxpay.Service.{audit_payment, ledger, save_payment, active_credential, transition_and_record}
use lynxpay.Stk.Access.{Principal, scoped_merchant}
use lynxpay.Stk.Submit.{StkAnswer, StkWork, submit_stk_attempt}

-- A validated `StkPushCreate` with the `Idempotency-Key`, the digest of that key and the
-- fingerprint of the request (app/core/security.py and `request_fingerprint` are not modelled).
pub record StkPushCreate : Type 0 where
  pub merchant_id : ℕ
  pub amount : ℕ
  pub phone_number : List ℕ
  pub external_reference : String
  pub invoice_id : Option ℕ
  pub purpose : Purpose
  pub idempotency_key : Option String
  pub idempotency_digest : String
  pub fingerprint : String

-- What the handler returns: a replay shows the payment of the first request.
pub data StkReply : Type 0 where
  replayed submitted : Payment → StkReply

abbrev pub is_verification : Purpose → Bool
is_verification Purpose.merchant_verification = true
is_verification Purpose.payment = false

abbrev is_verified : MerchantStatus → Bool
is_verified MerchantStatus.verified = true
is_verified _ = false

abbrev pub is_active_merchant : MerchantStatus → Bool
is_active_merchant MerchantStatus.active = true
is_active_merchant _ = false

-- `merchant.status == required_status`
abbrev pub eligible : Purpose → MerchantAccount → Bool
eligible Purpose.merchant_verification merchant = is_verified merchant.status
eligible Purpose.payment merchant = is_active_merchant merchant.status

-- The guards in order; they write nothing.
unfoldable pub admit_push :
    Session → Principal → StkPushCreate → Result (MerchantAccount × DarajaCredential)
admit_push db principal payload = scoped_merchant db principal payload.merchant_id >>= λ merchant.
    raise_if (is_verification payload.purpose && not principal.is_control_plane_admin) (http 403)
    >> raise_if (not (eligible payload.purpose merchant)) (http 409)
    >> (active_credential db merchant >>= λ credential. ok (merchant, credential))

-- `if idempotency_key` stands around the digest and around the second query.
abbrev digest_of : StkPushCreate → Option String
digest_of payload = if truthy payload.idempotency_key then some payload.idempotency_digest else none

-- `column.in_([digest, key])`, which is not true of NULL.
abbrev key_in : StkPushCreate → Option String → Bool
key_in payload none = false
key_in payload (some key) =
    text_eq key payload.idempotency_digest || same_text (some key) payload.idempotency_key

abbrev pub by_reference : StkPushCreate → ℕ → Payment → Bool
by_reference payload merchant_id p =
    p.merchant_account_id == merchant_id && text_eq p.external_reference payload.external_reference

abbrev pub by_key : StkPushCreate → ℕ → Payment → Bool
by_key payload merchant_id p =
    p.merchant_account_id == merchant_id && key_in payload p.idempotency_key

unfoldable pub by_key_if : Session → StkPushCreate → ℕ → Option Payment → Option Payment
by_key_if db payload merchant_id (some p) = some p
by_key_if db payload merchant_id none =
    if truthy payload.idempotency_key then first (by_key payload merchant_id) db.payments else none

-- The payment that the request repeats, if any.
unfoldable pub existing_payment : Session → StkPushCreate → ℕ → Option Payment
unfolding by_key_if
existing_payment db payload merchant_id =
    by_key_if db payload merchant_id (first (by_reference payload merchant_id) db.payments)

abbrev pub new_payment : ℕ → ℕ → MerchantAccount → StkPushCreate → Payment
new_payment now key merchant payload = record {
  id = key;
  organization_id = merchant.organization_id;
  merchant_account_id = merchant.id;
  external_reference = payload.external_reference;
  idempotency_key = digest_of payload;
  idempotency_request_hash = some payload.fingerprint;
  invoice_id = payload.invoice_id;
  customer_phone = payload.phone_number;
  amount = payload.amount;
  currency = "KES";
  purpose = payload.purpose;
  status = PaymentStatus.created;
  success_source = SuccessSource.unknown;
  receipt_status = ReceiptStatus.missing;
  review_status = ReviewStatus.none;
  review_reason = none;
  provider_acceptance_state = Acceptance.not_sent;
  checkout_request_id = none;
  merchant_request_id = none;
  mpesa_receipt_number = none;
  result_code = none;
  result_description = none;
  paid_at = none;
  failed_at = none;
  created_at = now;
  reconciliation_attempts = 0;
  last_reconciled_at = none;
  next_reconciliation_at = none;
  reconciliation_lease_owner = none;
  reconciliation_lease_expires_at = none;
}

-- A fresh attempt at a payment.
abbrev pub new_attempt : ℕ → Payment → ℕ → AttemptStatus → Option ℕ → AttemptType → PaymentAttempt
new_attempt key payment number status started kind = record {
  id = key;
  payment_id = payment.id;
  merchant_account_id = payment.merchant_account_id;
  attempt_number = number;
  phone_number = payment.customer_phone;
  amount = payment.amount;
  merchant_request_id = none;
  checkout_request_id = none;
  response_code = none;
  response_description = none;
  status = status;
  submission_started_at = started;
  provider_responded_at = none;
  abandoned_at = none;
  attempt_type = kind;
}

-- The insert of an attempt.
abbrev pub insert_attempt : PaymentAttempt → Session → Session
insert_attempt attempt db = record db { next_id = attempt.id + 1; attempts = attempt ∷ db.attempts }

-- The insert of the payment, its ledger entry and its audit entry.
abbrev pub insert_payment : Payment → Session → Session
insert_payment payment db = audit_payment payment Action.payment_created payment.id (
    ledger payment (EventType.payment PaymentStatus.created) none
      (record db { next_id = payment.id + 1; payments = payment ∷ db.payments }))

unfoldable pub first_attempt : ℕ → Result (Session × Payment) → Result StkWork
first_attempt now (err e) = err e
first_attempt now (ok (db, payment)) =
    let attempt : PaymentAttempt =
      new_attempt db.next_id payment 1 AttemptStatus.submitting (some now) AttemptType.initial in
    ok (record {
      db = insert_attempt attempt (save_payment payment db);
      payment = payment;
      attempt = attempt;
    })

-- Everything up to the commit before the submission.
unfoldable pub open_payment : ℕ → MerchantAccount → StkPushCreate → Session → Result StkWork
unfolding first_attempt
open_payment now merchant payload db =
    let payment : Payment = new_payment now db.next_id merchant payload in
    first_attempt now (
      transition_and_record now PaymentStatus.pending (EventType.payment PaymentStatus.pending)
        (insert_payment payment db) payment)

unfoldable pub as_reply : Result Payment × Session → Result StkReply × Session
as_reply (ok payment, db) = (ok (StkReply.submitted payment), db)
as_reply (err e, db) = (err e, db)

unfoldable pub send_opened :
    Settings
    → ℕ
    → MerchantAccount
    → DarajaCredential
    → Bool
    → StkAnswer
    → Session
    → Result StkWork
    → Result StkReply × Session
unfolding as_reply
send_opened settings now merchant credential taken answer db (err e) = (err e, db)
send_opened settings now merchant credential taken answer db (ok w) =
    as_reply (submit_stk_attempt settings now merchant credential taken answer w)

-- `if existing: …`; `raced` says whether a concurrent insert has the reference or the key.
unfoldable pub answer_push :
    Settings
    → ℕ
    → MerchantAccount
    → DarajaCredential
    → Bool
    → Bool
    → StkAnswer
    → StkPushCreate
    → Session
    → Option Payment
    → Result StkReply × Session
unfolding send_opened
answer_push settings now merchant credential raced taken answer payload db (some existing) = (
  if same_text existing.idempotency_request_hash (some payload.fingerprint)
      then ok (StkReply.replayed existing)
      else err (http 409),
  db,
)
answer_push settings now merchant credential raced taken answer payload db none =
    if raced
    then (err (http 409), db)
    else send_opened settings now merchant credential taken answer db
        (open_payment now merchant payload db)

unfoldable pub push_admitted :
    Settings
    → ℕ
    → Bool
    → Bool
    → StkAnswer
    → StkPushCreate
    → Session
    → Result (MerchantAccount × DarajaCredential)
    → Result StkReply × Session
push_admitted settings now raced taken answer payload db (err e) = (err e, db)
push_admitted settings now raced taken answer payload db (ok (merchant, credential)) =
    answer_push settings now merchant credential raced taken answer payload db
      (existing_payment db payload merchant.id)

-- The whole handler.
unfoldable pub create_stk_push :
    Settings
    → ℕ
    → Principal
    → Bool
    → Bool
    → StkAnswer
    → StkPushCreate
    → Session
    → Result StkReply × Session
create_stk_push settings now principal raced taken answer payload db =
    push_admitted settings now raced taken answer payload db (admit_push db principal payload)
