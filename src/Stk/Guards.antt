-- ===== src/Stk/Guards.antt =====
-- What a retry is allowed for, and how it ends.
use lynxpay.Prelude.{
  err, Result, http, Error, Bool, true, false, ◌≡◌, ◌≢◌, ◌⊎◌, ◌↔◌, ok, truthy, arith,
}
use lynxpay.Model.{PaymentStatus, ReceiptStatus, Acceptance, Payment}
use lynxpay.Stk.{Principal, retry_guards}

-- The rule of a retry: nothing shows that money moved, and the last request was definitely refused,
-- or its outcome is in doubt and an administrator takes the risk explicitly.
abbrev pub MayRetry : Bool → Principal → Payment → Type 0
MayRetry allow_uncertain principal p =
    (truthy p.mpesa_receipt_number ≡ false)
    × (p.receipt_status ≢ ReceiptStatus.present)
    × (p.receipt_status ≢ ReceiptStatus.enriched_later)
    × (((p.status ≡ PaymentStatus.failed) × (p.provider_acceptance_state ≡ Acceptance.rejected))
        ⊎ (((p.status ≡ PaymentStatus.timeout) ⊎ (p.status ≡ PaymentStatus.unknown))
            × (allow_uncertain ≡ true)
            × (principal.is_control_plane_admin ≡ true)))

-- The guards of a retry pass exactly where the payment may be retried: it has no receipt, and it is
-- a failure that the provider rejected, or a timeout or unknown with an administrator's override.
pub retry_guards_iff :
    (allow_uncertain : Bool) (principal : Principal) (p : Payment)
    → (retry_guards allow_uncertain principal p ≡ ok tt) ↔ MayRetry allow_uncertain principal p
unfolding retry_guards
retry_guards_iff allow_uncertain principal p = ground arith

-- An error that the client gets as 403, 404 or 409.
abbrev pub IsRefusal : Error → Type 0
IsRefusal e = (e ≡ http 403) ⊎ (e ≡ http 404) ⊎ (e ≡ http 409)

-- The code returns what the predicate says, or refuses.
abbrev pub OrRefuses {ℓ} : {A : Type ℓ} → (A → Type 0) → Result A → Type 0
OrRefuses P (ok a) = P a
OrRefuses P (err e) = IsRefusal e

-- The code returns what the one predicate says, or fails as the other says.
abbrev pub OrFails {ℓ} : {A : Type ℓ} → (Error → Type 0) → (A → Type 0) → Result A → Type 0
OrFails E P (ok a) = P a
OrFails E P (err e) = E e
