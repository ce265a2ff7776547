-- ===== src/Reconciliation/Claims.antt =====
-- What a worker claims, and for how long it is its own.
use lynxpay.Prelude.{
  ℕ, ◌+◌, ◌≤◌, ◌<◌, true, false, ◌≡◌, List, [], ◌∷◌, All, IsIn, IsFullBefore, ◌⊎◌, ◌≢◌, Option,
  none, some, refl, contains, update, Bool-cases, inl, inr, arith,
}
use lynxpay.Model.{Payment, PaymentStatus, Session, Settings}
use lynxpay.Reconciliation.{claimable, due, claim_reconciliations, page, lease, next_at}

-- A time that has come; a column that is NULL has none.
abbrev pub HasCome : ℕ → Option ℕ → Type 0
HasCome now column = (t : ℕ) × (column ≡ some t) × (t ≤ now)

-- A payment that a worker may claim: its outcome is open, the provider knows it, it has attempts
-- left, it is due, and no lease of it runs.
abbrev pub IsClaimable : Settings → ℕ → Payment → Type 0
IsClaimable settings now p =
    ((p.status ≡ PaymentStatus.stk_sent) ⊎ (p.status ≡ PaymentStatus.unknown))
    × (p.checkout_request_id ≢ none)
    × (p.reconciliation_attempts < settings.reconciliation_max_attempts)
    × HasCome now p.next_reconciliation_at
    × ((p.reconciliation_lease_owner ≡ none) ⊎ HasCome now p.reconciliation_lease_expires_at)

pub due-HasCome : (now : ℕ) (column : Option ℕ) → due now column ≡ true → HasCome now column
due-HasCome now none h = absurd (cc)
due-HasCome now (some t) h = (t, refl, ground (arith, h))

-- A row that the worker leaves alone: it may not be claimed, or it is claimed, or the page is full of
-- rows that are due no later.
abbrev pub IsServed : Settings → ℕ → ℕ → List Payment → Payment → Type 0
IsServed settings now limit claimed p =
    (¬ IsClaimable settings now p)
    ⊎ (IsIn p claimed)
    ⊎ (IsFullBefore next_at (page limit) p claimed)

module _ (settings : Settings) (now later worker_id : ℕ) (ids : List ℕ)
    (before : later < now + settings.webhook_lease_seconds) where
  abbrev IsTaken : Payment → Type 0
  IsTaken p = contains ids p.id ≡ true → claimable settings later p ≡ false

  leased-IsTaken :
      (p : Payment)
      → claimable settings later (lease worker_id (now + settings.webhook_lease_seconds) p) ≡ false
  leased-IsTaken p = ground (arith, before)

  update-IsTaken :
      (rows : List Payment)
      → All IsTaken (
          update
            (λ p. contains ids p.id)
            (lease worker_id (now + settings.webhook_lease_seconds))
            rows)
  update-IsTaken [] = tt
  update-IsTaken (p ∷ rows) = elim (Bool-cases (contains ids p.id)) [
    | inl hit ↦ rw hit ((λ _. leased-IsTaken p), update-IsTaken rows)
    | inr miss ↦ rw miss ((λ i. absurd (ground (arith, miss, i))), update-IsTaken rows)
  ]

-- Until the lease ends, no other claim takes a payment that a worker has claimed, whatever the
-- other's clock in that time.
pub claim_exclusive :
    (settings : Settings) (now later worker_id limit : ℕ) (db : Session)
    → later < now + settings.webhook_lease_seconds
    → All
        (λ p.
          contains (claim_reconciliations settings now worker_id limit db).0 p.id ≡ true
          → claimable settings later p ≡ false)
        (claim_reconciliations settings now worker_id limit db).1.payments
unfolding claim_reconciliations
claim_exclusive settings now later worker_id limit db before =
    update-IsTaken settings now later worker_id _ before db.payments
