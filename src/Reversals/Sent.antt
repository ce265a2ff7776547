-- ===== src/Reversals/Sent.antt =====
-- What the worker sends to the provider.
use lynxpay.Reversals.Bound.{reversal_binding_iff, IsReversible}
use lynxpay.Reversals.Rows.{save_reversal, only_success, original_payment}
use lynxpay.Reversals.{reversal_binding_error, BindingError}
use lynxpay.Model.{DarajaCredential, MerchantAccount, Payment, ReversalRequest, Session}
use lynxpay.Reversals.Worker.{
  submitting_since, start_decrypted, start_credential, start_bound, start_merchant, start_receipt,
  is_claimed_by, start_owned, start_found, ReversalSnapshot, start_submission,
}
use lynxpay.Prelude.{
  ℕ, Bool, true, false, ◌≡◌, ◌==◌, inl, inr, refl, Option, none, some, first, first_sound, same_key,
  Result, ok, err, Bool-cases,
}

-- The provider call that the snapshot stands for: the reversal was approved and leased to the worker,
-- the payment is the one that it is bound to, as it was when it was requested, and the call names the
-- receipt and the whole amount of that payment; the reversal is `submitting` before the call.
pub record IsSent (now worker_id k : ℕ) (db : Session) (snap : ReversalSnapshot) (d : Session)
    : Type 0 where
  pub row : ReversalRequest
  pub found : first (λ r. r.id == k) db.reversals ≡ some row
  pub key : row.id ≡ k
  pub claimed : is_claimed_by worker_id row ≡ true
  pub payment : Payment
  pub stored : first (original_payment row) db.payments ≡ some payment
  pub reversible : IsReversible only_success row payment
  pub call :
      (snap.id ≡ k)
      × (snap.transaction_id ≡ payment.mpesa_receipt_number)
      × (snap.amount ≡ payment.amount)
  pub session : d ≡ save_reversal (submitting_since now row) db

-- What holds where a snapshot is returned.
abbrev pub Sends : ℕ → ℕ → ℕ → Session → Option ReversalSnapshot × Session → Type 0
Sends now worker_id k db (none, d) = Unit
Sends now worker_id k db (some snap, d) = IsSent now worker_id k db snap d

module _ (now worker_id k : ℕ) (db : Session) (r : ReversalRequest)
    (found : first (λ row. row.id == k) db.reversals ≡ some r)
    (claimed : is_claimed_by worker_id r ≡ true) where
  receipt-Sends :
      (payment : Payment) (merchant : MerchantAccount) (b : Bool)
      → first (original_payment r) db.payments ≡ some payment
      → IsReversible only_success r payment
      → Sends now worker_id k db (start_receipt now r payment merchant db b)
  unfolding start_receipt
  receipt-Sends payment merchant false stored h = tt
  receipt-Sends payment merchant true stored h =
      let key : r.id ≡ k =
        same_key r.id k (first_sound (λ row. row.id == k) db.reversals r found) in
      record {
        row = r;
        found = found;
        key = key;
        claimed = claimed;
        payment = payment;
        stored = stored;
        reversible = h;
        call = (key, refl, h.amount);
        session = refl;
      }

  merchant-Sends :
      (payment : Payment) (merchant : Option MerchantAccount)
      → first (original_payment r) db.payments ≡ some payment
      → IsReversible only_success r payment
      → Sends now worker_id k db (start_merchant now r payment db merchant)
  unfolding start_merchant start_credential start_decrypted
  merchant-Sends payment none stored h = tt
  merchant-Sends payment (some merchant) stored h = with_credential _
    where
      with_secrets :
          (ready : Result (Unit {0}))
          → Sends now worker_id k db (start_decrypted now r payment merchant db ready)
      with_secrets (err e) = tt
      with_secrets (ok _) = receipt-Sends payment merchant _ stored h

      with_credential :
          (credential : Option DarajaCredential)
          → Sends now worker_id k db (start_credential now r payment merchant db credential)
      with_credential none = tt
      with_credential (some credential) = with_secrets _

  bound-Sends :
      (bound : Option BindingError) (payment : Option Payment)
      → first (original_payment r) db.payments ≡ payment
      → reversal_binding_error only_success r payment ≡ bound
      → Sends now worker_id k db (start_bound now r db bound payment)
  unfolding start_bound
  bound-Sends none (some payment) stored e =
      merchant-Sends payment _ stored ((reversal_binding_iff only_success r payment).0 e)
  bound-Sends none none stored e = tt
  bound-Sends (some error) payment stored e = tt

-- Where the worker gets to the provider call, the reversal was approved and leased to this worker,
-- the payment stands as it was when the reversal was requested, the call names its receipt and its
-- whole amount, and the only change that is committed is the reversal's move to `submitting`.
pub start-Sends :
    (now worker_id k : ℕ) (db : Session)
    → Sends now worker_id k db (start_submission now worker_id k db)
unfolding start_submission start_found start_owned
start-Sends now worker_id k db = sends _ refl
  where
    sends :
        (found : Option ReversalRequest)
        → first (λ r. r.id == k) db.reversals ≡ found
        → Sends now worker_id k db (start_found now worker_id db found)
    sends none found = tt
    sends (some r) found = elim (Bool-cases (is_claimed_by worker_id r)) [
      | inr n ↦ rw n tt
      | inl y ↦ rw y (bound-Sends now worker_id k db r found y _ _ refl refl)
    ]
