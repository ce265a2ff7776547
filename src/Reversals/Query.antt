-- ===== src/Reversals/Query.antt =====
-- `query_reversal_status` of app/routers/reversals.py, before and after the provider call.
use lynxpay.Service.{decrypted_reversal_credentials, decrypted_secrets, active_credential}
use lynxpay.Reversals.Rows.{
  original_payment, success_or_reversed, is_queryable, save_reversal, reversal_merchant,
  audit_reversal, scoped_reversal,
}
use lynxpay.Reversals.{reversal_binding_error, BindingError}
use lynxpay.Model.{
  Action, MerchantAccount, StatusQuery, Session, QueryState, ReversalStatus, ReversalRequest,
}
use lynxpay.Stk.{Principal}
use lynxpay.Prelude.{
  ℕ, ◌+◌, Bool, true, false, leb, ltb, Option, none, some, List, [], ◌∷◌, length, first, Result, ok,
  err, http, attribute_error, index_error, ◌>>◌, ◌>>=◌, raise_if, if◌then◌else◌,
}

-- The last element of `status_queries`.
abbrev pub last_query : List StatusQuery → Option StatusQuery
last_query [] = none
last_query (q ∷ []) = some q
last_query (_ ∷ q ∷ rest) = last_query (q ∷ rest)

-- `status_queries[-1] = {**status_queries[-1], "state": state}`
abbrev pub close_last : QueryState → List StatusQuery → List StatusQuery
close_last state [] = []
close_last state (q ∷ []) = record q { state = state } ∷ []
close_last state (p ∷ q ∷ rest) = p ∷ close_last state (q ∷ rest)

-- `status_queries.append(query)`
abbrev pub append_query : List StatusQuery → StatusQuery → List StatusQuery
append_query [] new = new ∷ []
append_query (q ∷ rest) new = q ∷ append_query rest new

-- `(utcnow() - previous).total_seconds() < 30`; a time that is later than now has a negative difference.
abbrev too_soon : ℕ → Option StatusQuery → Bool
too_soon now none = false
too_soon now (some q) = elim q.requested_at [
  | none ↦ false
  | some previous ↦ ltb now (previous + 30)
]

-- The guards on the queries so far: `STATUS_QUERY_MAX_ATTEMPTS` and `STATUS_QUERY_COOLDOWN_SECONDS`.
unfoldable pub query_limits : ℕ → List StatusQuery → Result (Unit {0})
query_limits now queries =
    raise_if (leb 10 (length queries)) (http 409)
    >> raise_if (too_soon now (last_query queries)) (http 429)

-- The merchant, its credentials, and the guards on the queries so far.
unfoldable pub query_ready :
    ℕ → ReversalRequest → Session → Option MerchantAccount → Result MerchantAccount
query_ready now r db none = err (http 409)
query_ready now r db (some merchant) = active_credential db merchant >>= λ credential.
    decrypted_secrets credential
    >> decrypted_reversal_credentials credential
    >> query_limits now r.status_queries
    >> ok merchant

abbrev pub query_of : ℕ → Principal → StatusQuery
query_of now principal = record {
  requested_at = some now;
  requested_by_user_id = principal.user_id;
  state = QueryState.submitting;
}

abbrev pub with_query : ℕ → Principal → ReversalRequest → ReversalRequest
with_query now principal r = record r {
  status_queries = append_query r.status_queries (query_of now principal);
}

unfoldable pub query_sent :
    ℕ
    → Principal
    → ReversalRequest
    → Session
    → Result MerchantAccount
    → Result MerchantAccount × Session
query_sent now principal r db (err e) = (err e, db)
query_sent now principal r db (ok merchant) = (
  ok merchant,
  audit_reversal r Action.reversal_status_query_requested
      (save_reversal (with_query now principal r) db),
)

unfoldable pub query_bound :
    ℕ
    → Principal
    → ReversalRequest
    → Session
    → Option BindingError
    → Result MerchantAccount × Session
query_bound now principal r db (some error) = (err (http 409), db)
query_bound now principal r db none =
    query_sent now principal r db (query_ready now r db (reversal_merchant db r))

unfoldable pub query_found :
    ℕ → Principal → Session → Option ReversalRequest → Result MerchantAccount × Session
query_found now principal db none = (err (http 404), db)
query_found now principal db (some r) =
    if is_queryable r.status
    then query_bound now principal r db
        (reversal_binding_error success_or_reversed r (first (original_payment r) db.payments))
    else (err (http 409), db)

-- The endpoint up to the commit before the provider call.
unfoldable pub start_status_query : ℕ → Principal → ℕ → Session → Result MerchantAccount × Session
start_status_query now principal reversal_id db =
    query_found now principal db (first (scoped_reversal principal reversal_id) db.reversals)

-- What the endpoint returns.
pub record QueryReply : Type 0 where
  pub reversal_id : ℕ
  pub status : ReversalStatus

abbrev pub query_closed : QueryState → ReversalRequest → ReversalRequest
query_closed state r = record r { status_queries = close_last state r.status_queries }

abbrev pub is_empty : List StatusQuery → Bool
is_empty [] = true
is_empty _ = false

-- Python raises on an attribute of `None`, and on the last element of an empty list.
unfoldable pub finish_query_found :
    Bool → Session → Option ReversalRequest → Result QueryReply × Session
finish_query_found accepted db none = (err attribute_error, db)
finish_query_found true db (some r) = if is_empty r.status_queries then (err index_error, db) else (
  ok (record { reversal_id = r.id; status = r.status }),
  audit_reversal r Action.reversal_status_query_accepted
      (save_reversal (query_closed QueryState.accepted r) db),
)
finish_query_found false db (some r) = (
  err (http 502),
  audit_reversal r Action.reversal_status_query_submission_failed
      (save_reversal (query_closed QueryState.submission_failed r) db),
)

-- The endpoint after the provider call, which returned or raised.
unfoldable pub finish_status_query : Bool → Principal → ℕ → Session → Result QueryReply × Session
finish_status_query accepted principal reversal_id db =
    finish_query_found accepted db (first (scoped_reversal principal reversal_id) db.reversals)
