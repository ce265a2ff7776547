-- ===== src/Reversals/Claim.antt =====
-- `claim_reversals` of app/reversals.py.
use lynxpay.Reconciliation.{due, page}
use lynxpay.Reversals.Rows.{audit_reversal, same_reversal_status}
use lynxpay.Model.{Action, Settings, ReversalRequest, ReversalStatus, Session}
use lynxpay.Prelude.{
  ℕ, ◌+◌, Bool, ◌&&◌, ◌||◌, is_none, none, some, List, [], ◌∷◌, take, select, update, map, sort_by,
  contains,
}

-- `lease_expires_at is not None and lease_expires_at <= now`, on a reversal that was being submitted.
abbrev pub is_stale_reversal : ℕ → ReversalRequest → Bool
is_stale_reversal now r =
    same_reversal_status r.status ReversalStatus.submitting && due now r.lease_expires_at

abbrev pub abandoned_reversal : ReversalRequest → ReversalRequest
abandoned_reversal r = record r {
  status = ReversalStatus.unknown;
  lease_owner = none;
  lease_expires_at = none;
}

-- The audit entries of the loop over the stale reversals.
unfoldable pub audit_abandoned : List ReversalRequest → Session → Session
audit_abandoned [] db = db
audit_abandoned (r ∷ rest) db =
    audit_abandoned rest (audit_reversal r Action.reversal_submission_abandoned db)

-- The loop over the stale reversals.
unfoldable pub abandon_stale : ℕ → Session → Session
abandon_stale now db =
    audit_abandoned (select (is_stale_reversal now) db.reversals)
      (record db { reversals = update (is_stale_reversal now) abandoned_reversal db.reversals })

-- The filter of the claim query.
abbrev pub claimable_reversal : ℕ → ReversalRequest → Bool
claimable_reversal now r =
    same_reversal_status r.status ReversalStatus.approved
    && (is_none r.lease_owner || due now r.lease_expires_at)

-- The time that an approved reversal is sorted by; it has one.
abbrev pub approved_time : ReversalRequest → ℕ
approved_time r = elim r.approved_at [ none ↦ 0 | some t ↦ t ]

-- `order_by(approved_at.asc(), created_at.asc()).limit(min(max(limit, 1), 100))`
abbrev pub claimed_reversals : ℕ → ℕ → List ReversalRequest → List ReversalRequest
claimed_reversals now limit rows =
    take (page limit)
      (sort_by approved_time (sort_by (λ r. r.created_at) (select (claimable_reversal now) rows)))

abbrev pub leased_to : ℕ → ℕ → ReversalRequest → ReversalRequest
leased_to worker_id until r = record r {
  lease_owner = some worker_id;
  lease_expires_at = some until;
}

-- The loop over the claimed reversals.
unfoldable pub lease_claimed : ℕ → ℕ → List ℕ → Session → Session
lease_claimed worker_id until ids db = record db {
  reversals = update (λ r. contains ids r.id) (leased_to worker_id until) db.reversals;
}

-- The ids claimed, and the session with their leases.
unfoldable pub claim_reversals : Settings → ℕ → ℕ → ℕ → Session → List ℕ × Session
claim_reversals settings now worker_id limit db =
    let freed = abandon_stale now db in
    let ids = map (λ r. r.id) (claimed_reversals now limit freed.reversals) in
    (ids, lease_claimed worker_id (now + settings.reversal_lease_seconds) ids freed)
