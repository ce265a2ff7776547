-- ===== src/Reconciliation/Claim.antt =====
-- `claim_reconciliations` and `reconciliation_delay_seconds` of app/reconciliation.py.
use lynxpay.Prelude.{
  not, ℕ, ◌+◌, ◌-◌, ◌*◌, min, max, Bool, false, ◌&&◌, ◌||◌, leb, ltb, is_none, Option, none, some,
  List, map, select, take, sort_by, update, contains, if◌then◌else◌,
}
use lynxpay.Model.{in_flight, Payment, Session, Settings}

-- `column <= now`, which is not true of NULL.
abbrev pub due : ℕ → Option ℕ → Bool
due now none = false
due now (some t) = leb t now

-- The filter of the claim query.
abbrev pub claimable : Settings → ℕ → Payment → Bool
claimable settings now p =
    in_flight p.status
    && not (is_none p.checkout_request_id)
    && ltb p.reconciliation_attempts settings.reconciliation_max_attempts
    && due now p.next_reconciliation_at
    && (is_none p.reconciliation_lease_owner || due now p.reconciliation_lease_expires_at)

abbrev pub next_at : Payment → ℕ
next_at p = elim p.next_reconciliation_at [ none ↦ 0 | some t ↦ t ]

-- `limit(min(max(limit, 1), 100))`
abbrev pub page : ℕ → ℕ
page limit = min (max limit 1) 100

unfoldable pub claimed_payments : Settings → ℕ → ℕ → Session → List Payment
claimed_payments settings now limit db =
    take (page limit) (sort_by next_at (select (claimable settings now) db.payments))

abbrev pub lease : ℕ → ℕ → Payment → Payment
lease worker_id until p = record p {
  reconciliation_lease_owner = some worker_id;
  reconciliation_lease_expires_at = some until;
}

-- The ids claimed, and the session with their leases.
unfoldable pub claim_reconciliations : Settings → ℕ → ℕ → ℕ → Session → List ℕ × Session
claim_reconciliations settings now worker_id limit db =
    let ids = map (λ p. p.id) (claimed_payments settings now limit db) in
    (
      ids,
      record db {
        payments =
            update (λ p. contains ids p.id) (lease worker_id (now + settings.webhook_lease_seconds))
              db.payments;
      },
    )

unfoldable pub reconciliation_delay_seconds : Settings → Payment → ℕ → Option ℕ
reconciliation_delay_seconds settings payment now =
    let age = now - payment.created_at in
    if ltb age (5 * 60)
    then some settings.reconciliation_frequent_interval_seconds
    else if ltb age (30 * 60)
    then some settings.reconciliation_slow_interval_seconds
    else if ltb age (settings.reconciliation_manual_review_after_hours * 60 * 60)
    then some settings.reconciliation_occasional_interval_seconds
    else none
