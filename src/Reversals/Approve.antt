-- ===== src/Reversals/Approve.antt =====
-- Approval, cancellation and status queries, and the table of reversals.
use lynxpay.Reversals.Life.{
  query_closed-Moves, with_query-Moves, cancelled_at-Moves, approved_by-Moves,
}
use lynxpay.Reversals.{BindingError}
use lynxpay.Reversals.Advance.{Advances-save, Advances-same, Advances-refl, Advances}
use lynxpay.Reversals.Rows.{reversal_merchant, is_queryable, save_reversal}
use lynxpay.Service.{active_credential, decrypted_reversal_credentials, decrypted_secrets, audit}
use lynxpay.Reversals.Request.{
  approved_by, cancelled_at, is_cancellable, approval_guards, approve_ready, approve_bound,
  approve_checked, approve_found, approve_reversal, cancel_reversal, cancel_found,
}
use lynxpay.Reversals.Query.{
  query_limits, query_ready, query_closed, with_query, is_empty, QueryReply, query_sent,
  query_found, finish_status_query, query_bound, finish_query_found, start_status_query,
}
use lynxpay.Model.{DarajaCredential, QueryState, MerchantAccount, ReversalRequest, Session}
use lynxpay.Stk.{Principal}
use lynxpay.Prelude.{
  ◌>>◌, ◌>>=◌, Ensures, ℕ, Bool, true, false, ◌≡◌, inl, inr, refl, Option, none, some, first,
  IsKeyedBy, arith, Result, ok, err, Bool-cases, if_both,
}

limits-last :
    (merchant : MerchantAccount) (limits : Result (Unit {0}))
    → Ensures (λ _. limits ≡ ok tt) (limits >> ok merchant)
limits-last merchant (err e) = tt
limits-last merchant (ok _) = refl

-- A status query that is sent passed the limits.
query_ready-limits :
    (now : ℕ) (r : ReversalRequest) (db : Session) (merchant : Option MerchantAccount)
    → Ensures (λ _. query_limits now r.status_queries ≡ ok tt) (query_ready now r db merchant)
unfolding query_ready
query_ready-limits now r db none = tt
query_ready-limits now r db (some merchant) = with_credential (active_credential db merchant)
  where
    IsLimited : Result MerchantAccount → Type 0
    IsLimited x = Ensures (λ _. query_limits now r.status_queries ≡ ok tt) x

    decrypted :
        (first_set second_set : Result (Unit {0}))
        → IsLimited (first_set >> second_set >> query_limits now r.status_queries >> ok merchant)
    decrypted (err e) second_set = tt
    decrypted (ok _) (err e) = tt
    decrypted (ok _) (ok _) = limits-last merchant (query_limits now r.status_queries)

    with_credential :
        (credential : Result DarajaCredential)
        → IsLimited (
            credential >>= λ c.
            decrypted_secrets c
            >> decrypted_reversal_credentials c
            >> query_limits now r.status_queries
            >> ok merchant)
    with_credential (err e) = tt
    with_credential (ok c) = decrypted (decrypted_secrets c) (decrypted_reversal_credentials c)

module _ (now : ℕ) (principal : Principal) (db : Session)
    (keyed : IsKeyedBy (λ row. row.id) db.reversals) where
  approve_ready-Advances :
      (test : ReversalRequest → Bool) (r : ReversalRequest) (ready : Result (Unit {0}))
      → first test db.reversals ≡ some r
      → approval_guards principal r ≡ ok tt
      → Advances db (approve_ready now principal r db ready).1
  unfolding approve_ready save_reversal audit
  approve_ready-Advances test r (err e) found guards = Advances-refl db
  approve_ready-Advances test r (ok _) found guards =
      Advances-save test r (approved_by now principal r) keyed found
        (approved_by-Moves now principal r guards) refl (omega arith)

  approve_bound-Advances :
      (test : ReversalRequest → Bool) (r : ReversalRequest) (bound : Option BindingError)
      → first test db.reversals ≡ some r
      → approval_guards principal r ≡ ok tt
      → Advances db (approve_bound now principal r db bound).1
  unfolding approve_bound audit
  approve_bound-Advances test r (some error) found guards = Advances-same refl (omega arith)
  approve_bound-Advances test r none found guards = approve_ready-Advances test r _ found guards

  approve_checked-Advances :
      (test : ReversalRequest → Bool) (r : ReversalRequest) (checked : Result (Unit {0}))
      → first test db.reversals ≡ some r
      → approval_guards principal r ≡ checked
      → Advances db (approve_checked now principal r db checked).1
  unfolding approve_checked
  approve_checked-Advances test r (err e) found guards = Advances-refl db
  approve_checked-Advances test r (ok _) found guards = approve_bound-Advances test r _ found guards

  approve_found-Advances :
      (test : ReversalRequest → Bool) (found : Option ReversalRequest)
      → first test db.reversals ≡ found
      → Advances db (approve_found now principal db found).1
  unfolding approve_found
  approve_found-Advances test none found = Advances-refl db
  approve_found-Advances test (some r) found = approve_checked-Advances test r _ found refl

  pub approve-Advances :
      (reversal_id : ℕ) → Advances db (approve_reversal now principal reversal_id db).1
  unfolding approve_reversal
  approve-Advances reversal_id = approve_found-Advances _ _ refl

  cancel_found-Advances :
      (test : ReversalRequest → Bool) (found : Option ReversalRequest)
      → first test db.reversals ≡ found
      → Advances db (cancel_found now db found).1
  unfolding cancel_found save_reversal audit
  cancel_found-Advances test none found = Advances-refl db
  cancel_found-Advances test (some r) found = elim (Bool-cases (is_cancellable r.status)) [
    | inr n ↦ rw n (Advances-refl db)
    | inl y ↦ rw y (
        Advances-save test r (cancelled_at now r) keyed found (cancelled_at-Moves now r y) refl
          (omega arith))
  ]

  pub cancel-Advances :
      (reversal_id : ℕ) → Advances db (cancel_reversal now principal reversal_id db).1
  unfolding cancel_reversal
  cancel-Advances reversal_id = cancel_found-Advances _ _ refl

  query_sent-Advances :
      (test : ReversalRequest → Bool) (r : ReversalRequest) (ready : Result MerchantAccount)
      → first test db.reversals ≡ some r
      → Ensures (λ _. query_limits now r.status_queries ≡ ok tt) ready
      → Advances db (query_sent now principal r db ready).1
  unfolding query_sent save_reversal audit
  query_sent-Advances test r (err e) found limits = Advances-refl db
  query_sent-Advances test r (ok merchant) found limits =
      Advances-save test r (with_query now principal r) keyed found
        (with_query-Moves now principal r limits) refl (omega arith)

  query_bound-Advances :
      (test : ReversalRequest → Bool) (r : ReversalRequest) (bound : Option BindingError)
      → first test db.reversals ≡ some r
      → Advances db (query_bound now principal r db bound).1
  unfolding query_bound
  query_bound-Advances test r (some error) found = Advances-refl db
  query_bound-Advances test r none found =
      query_sent-Advances test r _ found (query_ready-limits now r db (reversal_merchant db r))

  query_found-Advances :
      (test : ReversalRequest → Bool) (found : Option ReversalRequest)
      → first test db.reversals ≡ found
      → Advances db (query_found now principal db found).1
  unfolding query_found
  query_found-Advances test none found = Advances-refl db
  query_found-Advances test (some r) found =
      if_both (λ (s : Result MerchantAccount × Session). Advances db s.1) (is_queryable r.status)
        (query_bound-Advances test r _ found) (Advances-refl db)

  pub start_query-Advances :
      (reversal_id : ℕ) → Advances db (start_status_query now principal reversal_id db).1
  unfolding start_status_query
  start_query-Advances reversal_id = query_found-Advances _ _ refl

  finish_query_found-Advances :
      (accepted : Bool) (test : ReversalRequest → Bool) (found : Option ReversalRequest)
      → first test db.reversals ≡ found
      → Advances db (finish_query_found accepted db found).1
  unfolding finish_query_found save_reversal audit
  finish_query_found-Advances accepted test none found = Advances-refl db
  finish_query_found-Advances true test (some r) found =
      if_both (λ (s : Result QueryReply × Session). Advances db s.1) (is_empty r.status_queries)
        (Advances-refl db)
        (Advances-save test r (query_closed QueryState.accepted r) keyed found
          (query_closed-Moves QueryState.accepted r) refl (omega arith))
  finish_query_found-Advances false test (some r) found =
      Advances-save test r (query_closed QueryState.submission_failed r) keyed found
        (query_closed-Moves QueryState.submission_failed r) refl (omega arith)

  pub finish_query-Advances :
      (accepted : Bool) (reversal_id : ℕ)
      → Advances db (finish_status_query accepted principal reversal_id db).1
  unfolding finish_status_query
  finish_query-Advances accepted reversal_id = finish_query_found-Advances accepted _ _ refl
