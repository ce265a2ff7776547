-- ===== src/Reversals/Life.antt =====
-- The life of a reversal: which status may follow which, what a row has in each status, and how the
-- writes of the endpoints, the worker and the callbacks move one row.
use lynxpay.Reversals.Rows.{is_queryable}
use lynxpay.Reversals.Query.{
  query_of, close_last, append_query, query_limits, with_query, query_closed,
}
use lynxpay.Reversals.Request.{
  cancelled_at, is_cancellable, not_a_second, approved_by, approval_guards,
}
use lynxpay.Stk.{Principal}
use lynxpay.Reversals.Claim.{abandoned_reversal, leased_to, is_stale_reversal}
use lynxpay.Reversals.Worker.{
  submission_failed, submitting_since, submission_recorded, is_claimed_by, is_submitted_by,
  Submission,
}
use lynxpay.Model.{StatusQuery, QueryState, ReversalRequest, ReversalStatus}
use lynxpay.Prelude.{
  ℕ, suc, ◌<◌, leb, length, ap, List, [], ◌∷◌, Bool, true, false, not, ◌&&◌, ◌||◌, is_none, ok, ◌≡◌,
  refl, ◌⊎◌, inl, arith,
}

-- The lifecycle. A request waits for an approval, then for the worker; once it is sent, the answer of
-- the provider and its callbacks decide, and a verdict of timeout or unknown may still change.
abbrev pub may_advance : ReversalStatus → ReversalStatus → Bool
may_advance ReversalStatus.pending_approval ReversalStatus.approved = true
may_advance ReversalStatus.pending_approval ReversalStatus.cancelled = true
may_advance ReversalStatus.approved ReversalStatus.cancelled = true
may_advance ReversalStatus.approved ReversalStatus.submitting = true
may_advance ReversalStatus.approved ReversalStatus.failed = true
may_advance ReversalStatus.submitting ReversalStatus.submitted = true
may_advance ReversalStatus.submitting ReversalStatus.failed = true
may_advance ReversalStatus.submitting ReversalStatus.unknown = true
may_advance from ReversalStatus.timeout = is_queryable from
may_advance from ReversalStatus.unknown = is_queryable from
may_advance from ReversalStatus.failed = is_queryable from
may_advance from ReversalStatus.succeeded = is_queryable from
may_advance _ _ = false

-- The provider has not answered a submission.
abbrev pub is_unsent : ReversalStatus → Bool
is_unsent ReversalStatus.pending_approval = true
is_unsent ReversalStatus.approved = true
is_unsent ReversalStatus.submitting = true
is_unsent _ = false

-- Somebody approved it.
abbrev pub is_reviewed : ReversalStatus → Bool
is_reviewed ReversalStatus.pending_approval = false
is_reviewed ReversalStatus.cancelled = false
is_reviewed _ = true

-- A row that the provider has not answered has no ids of the provider.
abbrev pub ids_ok : ReversalRequest → Bool
ids_ok r =
    not (is_unsent r.status) || (is_none r.originator_conversation_id && is_none r.conversation_id)

-- A row that got past its approval names an approver, who is not the requester.
abbrev pub approver_ok : ReversalRequest → Bool
approver_ok r =
    not (is_reviewed r.status) || not (not_a_second r.approved_by_user_id r.requested_by_user_id)

-- No more status queries than `STATUS_QUERY_MAX_ATTEMPTS`.
abbrev pub queries_ok : ReversalRequest → Bool
queries_ok r = leb (length r.status_queries) 10

abbrev pub IsSound : ReversalRequest → Type 0
IsSound r = (ids_ok r ≡ true) × (approver_ok r ≡ true) × (queries_ok r ≡ true)

-- The columns that no write changes.
abbrev pub IsSame : ReversalRequest → ReversalRequest → Type 0
IsSame r r' =
    (r'.id ≡ r.id)
    × (r'.organization_id ≡ r.organization_id)
    × (r'.merchant_account_id ≡ r.merchant_account_id)
    × (r'.payment_id ≡ r.payment_id)
    × (r'.amount ≡ r.amount)
    × (r'.binding ≡ r.binding)
    × (r'.requested_by_user_id ≡ r.requested_by_user_id)

pub IsSame-refl : (r : ReversalRequest) → IsSame r r
IsSame-refl r = (refl, refl, refl, refl, refl, refl, refl)

-- A row before and after an operation: the same request, in the same status or in the next.
abbrev pub Moves : ReversalRequest → ReversalRequest → Type 0
Moves r r' =
    IsSame r r'
    × (IsSound r → IsSound r' × ((r'.status ≡ r.status) ⊎ (may_advance r.status r'.status ≡ true)))

pub Moves-refl : (r : ReversalRequest) → Moves r r
Moves-refl r = (IsSame-refl r, λ h. (h, inl refl))

pub approved_by-Moves :
    (now : ℕ) (principal : Principal) (r : ReversalRequest)
    → approval_guards principal r ≡ ok tt
    → Moves r (approved_by now principal r)
unfolding approval_guards
approved_by-Moves now principal r h = (IsSame-refl r, λ s. ground (arith, h, s))

pub cancelled_at-Moves :
    (now : ℕ) (r : ReversalRequest) → is_cancellable r.status ≡ true → Moves r (cancelled_at now r)
cancelled_at-Moves now r h = (IsSame-refl r, λ s. ground (arith, h, s))

pub abandoned_reversal-Moves :
    (now : ℕ) (r : ReversalRequest)
    → is_stale_reversal now r ≡ true
    → Moves r (abandoned_reversal r)
abandoned_reversal-Moves now r h = (IsSame-refl r, λ s. ground (arith, h, s))

-- A lease is no part of the life.
pub leased-Moves :
    (worker_id until : ℕ) (r r' : ReversalRequest)
    → Moves r r'
    → Moves r (leased_to worker_id until r')
leased-Moves worker_id until r r' h = h

pub submission_failed-Moves :
    (now worker_id : ℕ) (r : ReversalRequest)
    → is_claimed_by worker_id r ≡ true
    → Moves r (submission_failed now r)
submission_failed-Moves now worker_id r h = (IsSame-refl r, λ s. ground (arith, h, s))

pub submitting_since-Moves :
    (now worker_id : ℕ) (r : ReversalRequest)
    → is_claimed_by worker_id r ≡ true
    → Moves r (submitting_since now r)
submitting_since-Moves now worker_id r h = (IsSame-refl r, λ s. ground (arith, h, s))

pub submission_recorded-Moves :
    (now worker_id : ℕ) (s : Submission) (r : ReversalRequest)
    → is_submitted_by worker_id r ≡ true
    → Moves r (submission_recorded now s r)
submission_recorded-Moves now worker_id s r h = (IsSame-refl r, λ k. ground (arith, h, k))

append_query-length :
    (queries : List StatusQuery) (q : StatusQuery)
    → length (append_query queries q) ≡ suc (length queries)
append_query-length [] q = refl
append_query-length (p ∷ rest) q = ap suc (append_query-length rest q)

close_last-length :
    (state : QueryState) (queries : List StatusQuery)
    → length (close_last state queries) ≡ length queries
close_last-length state [] = refl
close_last-length state (q ∷ []) = refl
close_last-length state (p ∷ q ∷ rest) = ap suc (close_last-length state (q ∷ rest))

limits_below :
    (now : ℕ) (queries : List StatusQuery) → query_limits now queries ≡ ok tt → length queries < 10
unfolding query_limits
limits_below now queries h = ground (arith, h)

-- A status query is no part of the life, and there is room for it.
pub with_query-Moves :
    (now : ℕ) (principal : Principal) (r : ReversalRequest)
    → query_limits now r.status_queries ≡ ok tt
    → Moves r (with_query now principal r)
with_query-Moves now principal r h = (
  IsSame-refl r,
  λ s. (
    (
      s.0,
      s.1,
      ground (
        arith,
        append_query-length r.status_queries (query_of now principal),
        limits_below now r.status_queries h,
      ),
    ),
    inl refl,
  ),
)

pub query_closed-Moves : (state : QueryState) (r : ReversalRequest) → Moves r (query_closed state r)
query_closed-Moves state r = (
  IsSame-refl r,
  λ s. ((s.0, s.1, ground (arith, s.2, close_last-length state r.status_queries)), inl refl),
)
