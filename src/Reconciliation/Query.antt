-- ===== src/Reconciliation/Query.antt =====
-- Phase 1 of `reconcile_payment`: the lease and the snapshot, committed before the provider is asked.
use lynxpay.Prelude.{
  ℕ, ◌+◌, Bool, false, not, ◌&&◌, ◌||◌, ◌==◌, ltb, has_id, truthy, text_eq, String, Option, none,
  some, first, if◌then◌else◌,
}
use lynxpay.Model.{in_flight, MerchantAccount, DarajaCredential, Payment, Session, Settings}
use lynxpay.Service.{save_payment}

-- The snapshot, and whether merchant, credential and shortcode are there to ask with.
pub record Snapshot : Type 0 where
  pub owner : ℕ
  pub checkout_request_id : Option String
  pub available : Bool

-- What the provider says: a result code and a description, each of which may be missing.
pub record Answer : Type 0 where
  pub code : Option String
  pub description : Option String

-- The lease of another worker that has not expired.
abbrev other_lease : ℕ → Option ℕ → Option ℕ → Bool
other_lease now (some owner) (some until) = ltb now until
other_lease now _ _ = false

abbrev usable : Option MerchantAccount → Option DarajaCredential → Bool
usable (some merchant) (some credential) = not (text_eq credential.shortcode "")
usable _ _ = false

available : Session → Payment → Bool
available db payment = usable (first (λ m. m.id == payment.merchant_account_id) db.merchants) (
    first (λ c. c.merchant_account_id == payment.merchant_account_id && c.is_active) db.credentials)

abbrev snapshot : Session → Payment → ℕ → Snapshot
snapshot db payment owner = record {
  owner = owner;
  checkout_request_id = payment.checkout_request_id;
  available = available db payment;
}

-- A worker goes on under the lease that it holds; a manual call takes the lease.
lease_or_leave : Settings → ℕ → ℕ → Session → Payment → Option ℕ → Option Snapshot × Session
unfolding available
lease_or_leave settings now manual_id db payment (some worker_id) =
    if has_id payment.reconciliation_lease_owner worker_id
    then (some (snapshot db payment worker_id), db)
    else (none, db)
lease_or_leave settings now manual_id db payment none =
    if other_lease now payment.reconciliation_lease_owner payment.reconciliation_lease_expires_at
    then (none, db)
    else (
      some (snapshot db payment manual_id),
      save_payment
          (record payment {
            reconciliation_lease_owner = some manual_id;
            reconciliation_lease_expires_at = some (now + settings.webhook_lease_seconds);
          })
          db,
    )

begin_found : Settings → ℕ → ℕ → Session → Option ℕ → Option Payment → Option Snapshot × Session
unfolding lease_or_leave
begin_found settings now manual_id db worker none = (none, db)
begin_found settings now manual_id db worker (some payment) =
    if not (in_flight payment.status) || not (truthy payment.checkout_request_id)
    then (none, db)
    else lease_or_leave settings now manual_id db payment worker

-- Phase 1; `manual_id` is the fresh `manual-reconcile-…` owner of a call without a worker.
unfoldable pub begin_reconcile :
    Settings → ℕ → ℕ → ℕ → Option ℕ → Session → Option Snapshot × Session
unfolding begin_found
begin_reconcile settings now manual_id payment_id worker db =
    begin_found settings now manual_id db worker (first (λ p. p.id == payment_id) db.payments)
