-- ===== src/Reversals/Review.antt =====
-- The second pair of eyes: what an approval needs.
use lynxpay.Reversals.Bound.{reversal_binding_iff, IsReversible}
use lynxpay.Reversals.{reversal_binding_error, BindingError}
use lynxpay.Stk.Guards.{OrFails}
use lynxpay.Reversals.Rows.{reversal_merchant, only_success, original_payment, scoped_reversal}
use lynxpay.Service.{decrypted_reversal_credentials, active_credential}
use lynxpay.Model.{
  MerchantAccount, DarajaCredential, Payment, ReversalStatus, ReversalRequest, Session,
}
use lynxpay.Stk.{Principal}
use lynxpay.Reversals.Request.{
  not_a_second, approved_by, approve_bound, approve_ready, approve_checked, approve_found,
  approval_guards, merchant_ready, approve_reversal,
}
use lynxpay.Prelude.{
  none-ne-some, has_id, ◌>>=◌, ◌⊎◌, Bool-cases, Error, http, true, ℕ, false, ◌≡◌, inl, inr, sym,
  refl, Option, none, some, first, arith, Result, ok, err,
}

-- The active credential of a reversal's merchant.
pub record HasCredential (db : Session) (row : ReversalRequest) : Type 0 where
  pub merchant : MerchantAccount
  pub owner : reversal_merchant db row ≡ some merchant
  pub credential : DarajaCredential
  pub active : active_credential db merchant ≡ ok credential
  -- the two ciphertexts of the reversals are there
  pub present : credential.reversal_present ≡ true

-- A reversal that a user approved: it was waiting, the user is not the one who asked for it, the
-- payment is still the successful one that it is bound to, and the credentials decrypt.
pub record IsApproval (now : ℕ) (principal : Principal) (k : ℕ) (db : Session)
    (r' : ReversalRequest) : Type 0 where
  pub row : ReversalRequest
  pub found : first (scoped_reversal principal k) db.reversals ≡ some row
  pub waiting : row.status ≡ ReversalStatus.pending_approval
  pub user : (u : ℕ) × (principal.user_id ≡ some u) × (has_id row.requested_by_user_id u ≡ false)
  pub payment : Payment
  pub stored : first (original_payment row) db.payments ≡ some payment
  pub reversible : IsReversible only_success row payment
  pub secrets : (c : HasCredential db row) × (c.credential.reversal_decryptable ≡ true)
  pub approved : r' ≡ approved_by now principal row

-- How an approval fails: there is no such reversal, or it conflicts, or the reversal is there and the
-- stored credentials of its merchant do not decrypt.
abbrev pub IsDenial : Principal → ℕ → Session → Error → Type 0
IsDenial principal k db e =
    ((e ≡ http 404) × (first (scoped_reversal principal k) db.reversals ≡ none))
    ⊎ ((e ≡ http 409)
        × ((row : ReversalRequest) × (first (scoped_reversal principal k) db.reversals ≡ some row)))
    ⊎ ((e ≡ http 500)
        × ((row : ReversalRequest) × (first (scoped_reversal principal k) db.reversals ≡ some row)
            × (c : HasCredential db row) × (c.credential.reversal_decryptable ≡ false)))

second-user :
    (user requested_by : Option ℕ)
    → not_a_second user requested_by ≡ false
    → (u : ℕ) × (user ≡ some u) × (has_id requested_by u ≡ false)
second-user none requested_by h = absurd (ground (arith, h))
second-user (some u) requested_by h = (u, refl, h)

guards-Second :
    (principal : Principal) (r : ReversalRequest)
    → OrFails
        (λ e. e ≡ http 409)
        (λ _.
          (r.status ≡ ReversalStatus.pending_approval)
          × (not_a_second principal.user_id r.requested_by_user_id ≡ false))
        (approval_guards principal r)
unfolding approval_guards
guards-Second principal r = ground arith

module _ (db : Session) (r : ReversalRequest) where
  -- Whether the credentials decrypt: yes where the check passes, no where it ends with 500.
  abbrev IsReady : Result (Unit {0}) → Type 0
  IsReady x =
      OrFails
        (λ e.
          (e ≡ http 409)
          ⊎ ((e ≡ http 500)
              × ((c : HasCredential db r) × (c.credential.reversal_decryptable ≡ false))))
        (λ _. (c : HasCredential db r) × (c.credential.reversal_decryptable ≡ true)) x

  module _ (merchant : MerchantAccount) (owner : reversal_merchant db r ≡ some merchant) where
    decrypted-IsReady :
        (credential : DarajaCredential)
        → active_credential db merchant ≡ ok credential
        → IsReady (decrypted_reversal_credentials credential)
    unfolding decrypted_reversal_credentials
    decrypted-IsReady credential active = elim (Bool-cases credential.reversal_present) [
      | inr absent ↦ rw absent (inl refl)
      | inl present ↦
          let c : HasCredential db r = record {
            merchant = merchant;
            owner = owner;
            credential = credential;
            active = active;
            present = present;
          } in
          elim (Bool-cases credential.reversal_decryptable) [
            | inl readable ↦ rw (present, readable) (c, readable)
            | inr lost ↦ rw (present, lost) (inr (refl, (c, lost)))
          ]
    ]

    credential-IsReady :
        (credential : Result DarajaCredential)
        → OrFails (λ e. e ≡ http 409) (λ _. Unit {0}) credential
        → active_credential db merchant ≡ credential
        → IsReady (credential >>= λ c. decrypted_reversal_credentials c)
    credential-IsReady (err e) h active = inl h
    credential-IsReady (ok credential) h active = decrypted-IsReady credential active

  active_credential-IsConflict :
      (merchant : MerchantAccount)
      → OrFails (λ e. e ≡ http 409) (λ _. Unit {0}) (active_credential db merchant)
  unfolding active_credential
  active_credential-IsConflict merchant = ground arith

  merchant_ready-IsReady :
      (merchant : Option MerchantAccount)
      → reversal_merchant db r ≡ merchant
      → IsReady (merchant_ready db merchant)
  unfolding merchant_ready
  merchant_ready-IsReady none owner = inl refl
  merchant_ready-IsReady (some merchant) owner =
      credential-IsReady merchant owner _ (active_credential-IsConflict merchant) refl

module _ (now : ℕ) (principal : Principal) (k : ℕ) (db : Session) where
  abbrev Approves : Result ReversalRequest × Session → Type 0
  Approves s = OrFails (IsDenial principal k db) (IsApproval now principal k db) s.0

  module _ (r : ReversalRequest) (found : first (scoped_reversal principal k) db.reversals ≡ some r)
      (waiting : r.status ≡ ReversalStatus.pending_approval)
      (user : (u : ℕ) × (principal.user_id ≡ some u)
        × (has_id r.requested_by_user_id u ≡ false)) where
    ready-Approves :
        (payment : Payment) (ready : Result (Unit {0}))
        → first (original_payment r) db.payments ≡ some payment
        → IsReversible only_success r payment
        → IsReady db r ready
        → Approves (approve_ready now principal r db ready)
    unfolding approve_ready
    ready-Approves payment (err e) stored h (inl conflict) = inr (inl (conflict, (r, found)))
    ready-Approves payment (err e) stored h (inr lost) =
        inr (inr (lost.0, (r, found, lost.1.0, lost.1.1)))
    ready-Approves payment (ok _) stored h ready = record {
      row = r;
      found = found;
      waiting = waiting;
      user = user;
      payment = payment;
      stored = stored;
      reversible = h;
      secrets = ready;
      approved = refl;
    }

    bound-Approves :
        (bound : Option BindingError) (payment : Option Payment)
        → first (original_payment r) db.payments ≡ payment
        → reversal_binding_error only_success r payment ≡ bound
        → Approves (approve_bound now principal r db bound)
    unfolding approve_bound reversal_binding_error
    bound-Approves (some error) payment stored e = inr (inl (refl, (r, found)))
    bound-Approves none none stored e = absurd (none-ne-some (sym e))
    bound-Approves none (some payment) stored e =
        ready-Approves payment _ stored ((reversal_binding_iff only_success r payment).0 e)
          (merchant_ready-IsReady db r (reversal_merchant db r) refl)

  checked-Approves :
      (r : ReversalRequest) (checked : Result (Unit {0}))
      → first (scoped_reversal principal k) db.reversals ≡ some r
      → OrFails
          (λ e. e ≡ http 409)
          (λ _.
            (r.status ≡ ReversalStatus.pending_approval)
            × (not_a_second principal.user_id r.requested_by_user_id ≡ false))
          checked
      → Approves (approve_checked now principal r db checked)
  unfolding approve_checked
  checked-Approves r (err e) found guards = inr (inl (guards, (r, found)))
  checked-Approves r (ok _) found guards =
      bound-Approves r found guards.0 (second-user _ _ guards.1) _ _ refl refl

-- An approval ends with 404 where the user sees no such reversal, with 409 where there is one, with
-- 500 where there is one and its merchant's stored credentials for reversals do not decrypt, and with
-- no other error; or the reversal was waiting for it, the user is known and is not the one who
-- requested it, the payment still is the successful one that the reversal is bound to, and the
-- credentials decrypt.
pub approve-IsApproval :
    (now : ℕ) (principal : Principal) (k : ℕ) (db : Session)
    → OrFails
        (IsDenial principal k db)
        (IsApproval now principal k db)
        (approve_reversal now principal k db).0
unfolding approve_reversal approve_found
approve-IsApproval now principal k db = approves _ refl
  where
    approves :
        (found : Option ReversalRequest)
        → first (scoped_reversal principal k) db.reversals ≡ found
        → OrFails
            (IsDenial principal k db)
            (IsApproval now principal k db)
            (approve_found now principal db found).0
    approves none found = inl (refl, found)
    approves (some r) found =
        checked-Approves now principal k db r _ found (guards-Second principal r)
