-- ===== src/Reversals/Answer.antt =====
-- The callbacks, and the table of reversals.
use lynxpay.Reversals.Verdict.{settle-Settles, Settles}
use lynxpay.Reversals.Advance.{Advances-same, Advances-save, Advances-refl, Advances}
use lynxpay.Reversals.Matching.{matched_reversal-queryable}
use lynxpay.Reversals.Life.{IsSound}
use lynxpay.Reversals.Rows.{is_terminal, save_reversal, is_queryable}
use lynxpay.Model.{
  ReversalCallback, MerchantAccount, ReversalProcessing, CallbackType, ReversalRequest, Settings,
  Session,
}
use lynxpay.Reversals.Delivery.{
  is_status_type, ReversalReceipt, close_as, by_receipt, matched_by_receipt, ReversalDelivery,
  by_provider_ids, matched_reversal, save_reversal_callback, store_reversal_callback, ResultFields,
}
use lynxpay.Reversals.Settle.{Settled}
use lynxpay.Reversals.Callback.{
  about, is_malformed, callback_for_merchant, terminal_callback, finish_reversal_callback,
  callback_matched, screen_reversal_callback, receive_reversal_callback,
}
use lynxpay.Service.{audit}
use lynxpay.Prelude.{
  Ensures, ℕ, Bool, true, ◌≡◌, ◌==◌, inl, inr, ap, ◌∙◌, refl, Option, none, some, Ensures, All,
  first, first-All, truthy, update, IsKeyedBy, arith, Result, ok, err, not, ◌&&◌, none-ne-some,
  Bool-cases, if_both,
}

-- An early return writes neither the reversals nor the key counter.
close-Advances :
    (now : ℕ) (status : ReversalProcessing) (c : ReversalCallback) (db : Session)
    → Advances db (close_as now status c db)
unfolding save_reversal_callback
close-Advances now status c db = Advances-same refl (omega arith)

-- The row that a callback matched is the first of one of its two queries.
matched-found :
    (merchant : MerchantAccount) (kind : CallbackType) (fields : ResultFields) (db : Session)
    (r : ReversalRequest)
    → matched_reversal merchant kind fields db ≡ some r
    → (test : ReversalRequest → Bool) × (first test db.reversals ≡ some r)
unfolding matched_reversal
matched-found merchant kind fields db r h = by_ids _ refl h
  where
    by_ids :
        (found : Option ReversalRequest)
        → first (by_provider_ids merchant fields) db.reversals ≡ found
        → (elim found [ some q ↦ some q | none ↦ matched_by_receipt merchant kind fields db ])
          ≡ some r
        → (test : ReversalRequest → Bool) × (first test db.reversals ≡ some r)
    by_ids (some q) e k = (by_provider_ids merchant fields, e ∙ k)
    by_ids none e k = (
      by_receipt merchant fields db,
      elim (Bool-cases (is_status_type kind && truthy fields.transaction_id)) [
        | inl y ↦ rw y at k
        | inr n ↦ absurd (none-ne-some (rw n at k))
      ],
    )

module _ (settings : Settings) (now : ℕ) (db : Session)
    (keyed : IsKeyedBy (λ row. row.id) db.reversals) where
  finish_reversal_callback-Advances :
      (c : ReversalCallback) (test : ReversalRequest → Bool) (r : ReversalRequest)
      (settled : Result Settled)
      → first test db.reversals ≡ some r
      → is_queryable r.status ≡ true
      → Ensures (Settles db r) settled
      → Advances db (finish_reversal_callback now c db settled).1
  unfolding finish_reversal_callback save_reversal save_reversal_callback audit
  finish_reversal_callback-Advances c test r (err e) found live h = Advances-refl db
  finish_reversal_callback-Advances c test r (ok s) found live h =
      Advances-save test r s.reversal keyed found (h.1 live)
        (ap (update (λ row. row.id == s.reversal.id) (λ row. s.reversal)) h.0.0) h.0.1

  callback_matched-Advances :
      (merchant : MerchantAccount) (kind : CallbackType) (fields : ResultFields)
      (c : ReversalCallback) (found : Option ReversalRequest)
      → All IsSound db.reversals
      → matched_reversal merchant kind fields db ≡ found
      → Advances db (callback_matched settings now kind fields c db found).1
  unfolding callback_matched terminal_callback audit
  callback_matched-Advances merchant kind fields c none sound found = close-Advances now _ c db
  callback_matched-Advances merchant kind fields c (some r) sound found =
      let (test, row) = matched-found merchant kind fields db r found in
      let ids : IsSound r = first-All IsSound test db.reversals r sound row in
      elim (Bool-cases (is_terminal r.status)) [
        | inl y ↦ rw y (unfold save_reversal_callback in Advances-same refl (omega arith))
        | inr n ↦ rw n (
            finish_reversal_callback-Advances (about r c) test r _ row
              (matched_reversal-queryable merchant kind fields db r found n ids.0)
              (settle-Settles settings now fields r db kind))
      ]

  screen-Advances :
      (merchant : MerchantAccount) (kind : CallbackType) (delivery : ReversalDelivery)
      (c : ReversalCallback)
      → All IsSound db.reversals
      → Advances db (screen_reversal_callback settings now merchant kind delivery c db).1
  unfolding screen_reversal_callback
  screen-Advances merchant kind delivery c sound =
      if_both Ends delivery.oversized (close-Advances now _ c db) (
        if_both Ends (not delivery.allowed) (close-Advances now _ c db) (
          if_both Ends (is_malformed kind delivery.fields) (close-Advances now _ c db)
            (callback_matched-Advances merchant kind delivery.fields c _ sound refl)))
    where
      Ends : Result ReversalReceipt × Session → Type 0
      Ends s = Advances db s.1

-- The stored callback takes a key.
stored-Advances :
    (merchant : MerchantAccount) (c : ReversalCallback) (db d : Session)
    → c.id ≡ db.next_id
    → Advances (store_reversal_callback merchant c db) d
    → Advances db d
unfolding store_reversal_callback audit
stored-Advances merchant c db d e h = record { rows = h.rows; next = omega (arith, e, h.next) }

pub callback-Advances :
    (settings : Settings) (now merchant_id : ℕ) (kind : Option CallbackType)
    (delivery : ReversalDelivery) (db : Session)
    → IsKeyedBy (λ row. row.id) db.reversals
    → All IsSound db.reversals
    → Advances db (receive_reversal_callback settings now merchant_id kind delivery db).1
unfolding receive_reversal_callback callback_for_merchant store_reversal_callback audit
callback-Advances settings now merchant_id none delivery db keyed sound = Advances-refl db
callback-Advances settings now merchant_id (some kind) delivery db keyed sound =
    for_merchant (first (λ m. m.id == merchant_id) db.merchants)
  where
    for_merchant :
        (merchant : Option MerchantAccount)
        → Advances db (callback_for_merchant settings now kind delivery db merchant).1
    for_merchant none = Advances-refl db
    for_merchant (some merchant) =
        stored-Advances merchant _ db _ refl
          (screen-Advances settings now _ keyed merchant kind delivery _ sound)
