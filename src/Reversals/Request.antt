-- ===== src/Reversals/Request.antt =====
-- `request_reversal`, `approve_reversal` and `cancel_reversal` of app/routers/reversals.py.
use lynxpay.Prelude.{
  ℕ, ◌+◌, ◌%◌, Bool, true, false, not, ◌&&◌, ◌||◌, ◌==◌, has_id, text_eq, truthy, String, Option,
  none, some, [], ◌∷◌, first, Result, ok, err, http, ◌>>◌, ◌>>=◌, raise_if, if◌then◌else◌,
}
use lynxpay.Model.{
  PaymentStatus, same_status, ReversalStatus, Action, MerchantAccount, Payment, ReversalRequest,
  Session,
}
use lynxpay.Service.{active_credential, decrypted_reversal_credentials}
use lynxpay.Stk.{Principal}
use lynxpay.Reversals.{BindingError, is_payment, payment_reversal_binding, reversal_binding_error}
use lynxpay.Reversals.Rows.{
  same_reversal_status, is_active_reversal, scoped_reversal, original_payment, reversal_merchant,
  save_reversal, audit_reversal, only_success,
}

-- The `Idempotency-Key` as its digest, and the fingerprint of payment, amount and reason.
pub record ReversalRequestCreate : Type 0 where
  pub idempotency_digest : String
  pub fingerprint : String

-- What the endpoint returns: the reversal, and whether it is a replay.
pub data ReversalReply : Type 0 where
  replayed requested : ReversalRequest → ReversalReply

-- The guards on the payment, in order.
unfoldable pub reversible_payment : Payment → Result (Unit {0})
reversible_payment payment =
    raise_if (not (is_payment payment.purpose)) (http 409)
    >> raise_if
        (not (same_status payment.status PaymentStatus.success)
          || not (truthy payment.mpesa_receipt_number))
        (http 409)
    >> raise_if (not (payment.amount % 100 == 0)) (http 409)

abbrev pub by_digest : ReversalRequestCreate → Payment → ReversalRequest → Bool
by_digest payload payment r =
    r.merchant_account_id == payment.merchant_account_id
    && text_eq r.idempotency_key payload.idempotency_digest

abbrev pub active_for : ℕ → ReversalRequest → Bool
active_for payment_id r = r.payment_id == payment_id && is_active_reversal r.status

abbrev pub new_reversal : ℕ → ℕ → Principal → ReversalRequestCreate → Payment → ReversalRequest
new_reversal now key principal payload payment = record {
  id = key;
  organization_id = payment.organization_id;
  merchant_account_id = payment.merchant_account_id;
  payment_id = payment.id;
  idempotency_key = payload.idempotency_digest;
  idempotency_request_hash = payload.fingerprint;
  amount = payment.amount;
  currency = payment.currency;
  status = ReversalStatus.pending_approval;
  requested_by_user_id = principal.user_id;
  approved_by_user_id = none;
  originator_conversation_id = none;
  conversation_id = none;
  provider_transaction_id = none;
  response_code = none;
  binding = some (payment_reversal_binding payment);
  status_queries = [];
  approved_at = none;
  submission_started_at = none;
  submitted_at = none;
  completed_at = none;
  created_at = now;
  lease_owner = none;
  lease_expires_at = none;
}

-- The insert, with its audit entry.
unfoldable pub insert_reversal : ReversalRequest → Session → Session
insert_reversal r db =
    audit_reversal r Action.reversal_requested
      (record db { next_id = r.id + 1; reversals = r ∷ db.reversals })

-- `if active: …`
unfoldable pub request_inactive :
    ℕ
    → Principal
    → ReversalRequestCreate
    → Payment
    → Session
    → Option ReversalRequest
    → Result ReversalReply × Session
request_inactive now principal payload payment db (some active) = (err (http 409), db)
request_inactive now principal payload payment db none =
    let r = new_reversal now db.next_id principal payload payment in
    (ok (ReversalReply.requested r), insert_reversal r db)

-- `if existing: …`
unfoldable pub request_new :
    ℕ
    → Principal
    → ReversalRequestCreate
    → Payment
    → Session
    → Option ReversalRequest
    → Result ReversalReply × Session
request_new now principal payload payment db (some existing) = (
  if text_eq existing.idempotency_request_hash payload.fingerprint
      then ok (ReversalReply.replayed existing)
      else err (http 409),
  db,
)
request_new now principal payload payment db none =
    request_inactive now principal payload payment db (first (active_for payment.id) db.reversals)

unfoldable pub request_checked :
    ℕ
    → Principal
    → ReversalRequestCreate
    → Payment
    → Session
    → Result (Unit {0})
    → Result ReversalReply × Session
request_checked now principal payload payment db (err e) = (err e, db)
request_checked now principal payload payment db (ok _) =
    request_new now principal payload payment db (first (by_digest payload payment) db.reversals)

unfoldable pub request_found :
    ℕ
    → Principal
    → ReversalRequestCreate
    → Session
    → Option Payment
    → Result ReversalReply × Session
request_found now principal payload db none = (err (http 404), db)
request_found now principal payload db (some payment) =
    request_checked now principal payload payment db (reversible_payment payment)

unfoldable pub request_reversal :
    ℕ → Principal → ℕ → ReversalRequestCreate → Session → Result ReversalReply × Session
request_reversal now principal payment_id payload db =
    request_found now principal payload db (
      first (λ p. p.id == payment_id && p.organization_id == principal.organization_id) db.payments)

-- `not principal.user_id or principal.user_id == reversal.requested_by_user_id`
abbrev pub not_a_second : Option ℕ → Option ℕ → Bool
not_a_second none requested_by = true
not_a_second (some user_id) requested_by = has_id requested_by user_id

-- The guards on the reversal.
unfoldable pub approval_guards : Principal → ReversalRequest → Result (Unit {0})
approval_guards principal r =
    raise_if (not (same_reversal_status r.status ReversalStatus.pending_approval)) (http 409)
    >> raise_if (not_a_second principal.user_id r.requested_by_user_id) (http 409)

abbrev pub approved_by : ℕ → Principal → ReversalRequest → ReversalRequest
approved_by now principal r = record r {
  status = ReversalStatus.approved;
  approved_by_user_id = principal.user_id;
  approved_at = some now;
}

-- The merchant and its credentials, as far as they are checked.
unfoldable pub merchant_ready : Session → Option MerchantAccount → Result (Unit {0})
merchant_ready db none = err (http 409)
merchant_ready db (some merchant) =
    active_credential db merchant >>= λ credential. decrypted_reversal_credentials credential

unfoldable pub approve_ready :
    ℕ → Principal → ReversalRequest → Session → Result (Unit {0}) → Result ReversalRequest × Session
approve_ready now principal r db (err e) = (err e, db)
approve_ready now principal r db (ok _) =
    let r' = approved_by now principal r in
    (ok r', audit_reversal r' (Action.reversal ReversalStatus.approved) (save_reversal r' db))

-- `if binding_error: …`, whose audit entry is committed.
unfoldable pub approve_bound :
    ℕ
    → Principal
    → ReversalRequest
    → Session
    → Option BindingError
    → Result ReversalRequest × Session
unfolding merchant_ready
approve_bound now principal r db (some error) =
    (err (http 409), audit_reversal r Action.reversal_approval_conflict db)
approve_bound now principal r db none =
    approve_ready now principal r db (merchant_ready db (reversal_merchant db r))

unfoldable pub approve_checked :
    ℕ → Principal → ReversalRequest → Session → Result (Unit {0}) → Result ReversalRequest × Session
approve_checked now principal r db (err e) = (err e, db)
approve_checked now principal r db (ok _) =
    approve_bound now principal r db
      (reversal_binding_error only_success r (first (original_payment r) db.payments))

unfoldable pub approve_found :
    ℕ → Principal → Session → Option ReversalRequest → Result ReversalRequest × Session
approve_found now principal db none = (err (http 404), db)
approve_found now principal db (some r) =
    approve_checked now principal r db (approval_guards principal r)

unfoldable pub approve_reversal : ℕ → Principal → ℕ → Session → Result ReversalRequest × Session
approve_reversal now principal reversal_id db =
    approve_found now principal db (first (scoped_reversal principal reversal_id) db.reversals)

abbrev pub is_cancellable : ReversalStatus → Bool
is_cancellable ReversalStatus.pending_approval = true
is_cancellable ReversalStatus.approved = true
is_cancellable _ = false

abbrev pub cancelled_at : ℕ → ReversalRequest → ReversalRequest
cancelled_at now r = record r { status = ReversalStatus.cancelled; completed_at = some now }

unfoldable pub cancel_found :
    ℕ → Session → Option ReversalRequest → Result ReversalRequest × Session
cancel_found now db none = (err (http 404), db)
cancel_found now db (some r) =
    if is_cancellable r.status
    then (
      ok (cancelled_at now r),
      audit_reversal r (Action.reversal ReversalStatus.cancelled)
          (save_reversal (cancelled_at now r) db),
    )
    else (err (http 409), db)

unfoldable pub cancel_reversal : ℕ → Principal → ℕ → Session → Result ReversalRequest × Session
cancel_reversal now principal reversal_id db =
    cancel_found now db (first (scoped_reversal principal reversal_id) db.reversals)
