-- ===== src/Reversals/Submit.antt =====
-- The worker, and the table of reversals.
use lynxpay.Reversals.{BindingError}
use lynxpay.Service.{audit}
use lynxpay.Reversals.Rows.{save_reversal}
use lynxpay.Reversals.Advance.{Advances-save, Advances-refl, Advances}
use lynxpay.Model.{DarajaCredential, MerchantAccount, Payment, ReversalRequest, Settings, Session}
use lynxpay.Prelude.{
  ℕ, Bool, true, ◌≡◌, ◌≤◌, inl, inr, sym, refl, subst, Option, none, some, List, [], ◌∷◌, first,
  select, truthy, contains, update, Pairs, Pairs-update, update-Pairs, IsKeyedBy, arith, Result, ok,
  err, Bool-cases,
}
use lynxpay.Reversals.Life.{
  submission_recorded-Moves, submitting_since-Moves, submission_failed-Moves,
  abandoned_reversal-Moves, Moves-refl, Moves, leased-Moves,
}
use lynxpay.Reversals.Claim.{
  leased_to, abandon_stale, audit_abandoned, lease_claimed, claim_reversals, is_stale_reversal,
  abandoned_reversal,
}
use lynxpay.Reversals.Worker.{
  submitting_since, submission_recorded, is_submitted_by, is_claimed_by, start_owned, start_receipt,
  start_credential, Submission, start_decrypted, start_submission, finish_submission, start_bound,
  start_found, finish_submission_found, start_merchant, submission_failed,
}

module _ (now : ℕ) (db : Session) where
  audit_abandoned_tables :
      (rows : List ReversalRequest) (d : Session)
      → ((audit_abandoned rows d).reversals ≡ d.reversals)
        × ((audit_abandoned rows d).next_id ≡ d.next_id)
  unfolding audit_abandoned audit
  audit_abandoned_tables [] d = (refl, refl)
  audit_abandoned_tables (r ∷ rest) d = audit_abandoned_tables rest _

  -- The loop over the stale rows.
  abandon-Advances : Advances db (abandon_stale now db)
  unfolding abandon_stale
  abandon-Advances =
      let (rows, next) =
        audit_abandoned_tables (select (is_stale_reversal now) db.reversals) (record db {
          reversals = update (is_stale_reversal now) abandoned_reversal db.reversals;
        }) in
      record {
        rows = subst (Pairs Moves db.reversals) (sym rows) (
            update-Pairs Moves Moves-refl (is_stale_reversal now) abandoned_reversal
              (abandoned_reversal-Moves now) db.reversals);
        next = subst (λ n. db.next_id ≤ n) (sym next) (omega arith);
      }

lease-Advances :
    (worker_id until : ℕ) (ids : List ℕ) (db d : Session)
    → Advances db d
    → Advances db (lease_claimed worker_id until ids d)
unfolding lease_claimed
lease-Advances worker_id until ids db d h = record {
  rows =
      Pairs-update Moves (λ r. contains ids r.id) (leased_to worker_id until)
        (λ p q m. leased-Moves worker_id until p q m) db.reversals d.reversals h.rows;
  next = h.next;
}

pub claim-Advances :
    (settings : Settings) (now worker_id limit : ℕ) (db : Session)
    → Advances db (claim_reversals settings now worker_id limit db).1
unfolding claim_reversals
claim-Advances settings now worker_id limit db =
    lease-Advances worker_id _ _ db _ (abandon-Advances now db)

module _ (now worker_id : ℕ) (db : Session) (keyed : IsKeyedBy (λ row. row.id) db.reversals) where
  -- The write of a claimed row that cannot be sent.
  fail-Advances :
      (test : ReversalRequest → Bool) (r : ReversalRequest)
      → first test db.reversals ≡ some r
      → is_claimed_by worker_id r ≡ true
      → Advances db (save_reversal (submission_failed now r) db)
  unfolding save_reversal
  fail-Advances test r found mine =
      Advances-save test r (submission_failed now r) keyed found
        (submission_failed-Moves now worker_id r mine) refl (omega arith)

  start_decrypted-Advances :
      (test : ReversalRequest → Bool) (r : ReversalRequest) (payment : Payment)
      (merchant : MerchantAccount) (ready : Result (Unit {0}))
      → first test db.reversals ≡ some r
      → is_claimed_by worker_id r ≡ true
      → Advances db (start_decrypted now r payment merchant db ready).1
  unfolding start_decrypted start_receipt
  start_decrypted-Advances test r payment merchant (err e) found mine =
      fail-Advances test r found mine
  start_decrypted-Advances test r payment merchant (ok _) found mine =
      elim (Bool-cases (truthy payment.mpesa_receipt_number)) [
        | inr n ↦ rw n (fail-Advances test r found mine)
        | inl y ↦ rw y (
            unfold save_reversal in
            Advances-save test r (submitting_since now r) keyed found
              (submitting_since-Moves now worker_id r mine) refl (omega arith))
      ]

  start_merchant-Advances :
      (test : ReversalRequest → Bool) (r : ReversalRequest) (payment : Payment)
      (merchant : Option MerchantAccount)
      → first test db.reversals ≡ some r
      → is_claimed_by worker_id r ≡ true
      → Advances db (start_merchant now r payment db merchant).1
  unfolding start_merchant start_credential
  start_merchant-Advances test r payment none found mine = fail-Advances test r found mine
  start_merchant-Advances test r payment (some merchant) found mine = with_credential _
    where
      with_credential :
          (credential : Option DarajaCredential)
          → Advances db (start_credential now r payment merchant db credential).1
      with_credential none = fail-Advances test r found mine
      with_credential (some credential) =
          start_decrypted-Advances test r payment merchant _ found mine

  start_bound-Advances :
      (test : ReversalRequest → Bool) (r : ReversalRequest) (bound : Option BindingError)
      (payment : Option Payment)
      → first test db.reversals ≡ some r
      → is_claimed_by worker_id r ≡ true
      → Advances db (start_bound now r db bound payment).1
  unfolding start_bound save_reversal audit
  start_bound-Advances test r none (some payment) found mine =
      start_merchant-Advances test r payment _ found mine
  start_bound-Advances test r none none found mine =
      Advances-save test r (submission_failed now r) keyed found
        (submission_failed-Moves now worker_id r mine) refl (omega arith)
  start_bound-Advances test r (some error) payment found mine =
      Advances-save test r (submission_failed now r) keyed found
        (submission_failed-Moves now worker_id r mine) refl (omega arith)

  start_found-Advances :
      (test : ReversalRequest → Bool) (found : Option ReversalRequest)
      → first test db.reversals ≡ found
      → Advances db (start_found now worker_id db found).1
  unfolding start_found start_owned
  start_found-Advances test none found = Advances-refl db
  start_found-Advances test (some r) found = elim (Bool-cases (is_claimed_by worker_id r)) [
    | inr n ↦ rw n (Advances-refl db)
    | inl y ↦ rw y (start_bound-Advances test r _ _ found y)
  ]

  pub start-Advances :
      (reversal_id : ℕ) → Advances db (start_submission now worker_id reversal_id db).1
  unfolding start_submission
  start-Advances reversal_id = start_found-Advances _ _ refl

  finish_found-Advances :
      (s : Submission) (test : ReversalRequest → Bool) (found : Option ReversalRequest)
      → first test db.reversals ≡ found
      → Advances db (finish_submission_found now worker_id s db found).1
  unfolding finish_submission_found save_reversal audit
  finish_found-Advances s test none found = Advances-refl db
  finish_found-Advances s test (some r) found = elim (Bool-cases (is_submitted_by worker_id r)) [
    | inr n ↦ rw n (Advances-refl db)
    | inl y ↦ rw y (
        Advances-save test r (submission_recorded now s r) keyed found
          (submission_recorded-Moves now worker_id s r y) refl (omega arith))
  ]

  pub finish-Advances :
      (reversal_id : ℕ) (s : Submission)
      → Advances db (finish_submission now worker_id reversal_id s db).1
  unfolding finish_submission
  finish-Advances reversal_id s = finish_found-Advances s _ _ refl
