-- ===== src/Reversals/Confirm.antt =====
-- When a callback reverses a payment, and what that leaves in the ledger.
use lynxpay.Reversals.Verdict.{Settles}
use lynxpay.Reversals.Verdict.{settle-Settles}
use lynxpay.Reversals.Settle.{succeeded_with, Settled}
use lynxpay.Service.Recorded.{Held-Recorded, Recorded, move_entry}
use lynxpay.Reversals.Rows.{original_payment, is_terminal, save_reversal}
use lynxpay.Service.Coupling.{ledger-save, Held-found, save-IsCoupled, IsCoupled-same, IsCoupled}
use lynxpay.Reversals.Payments.{settle-Pays, Pays, reversed_payment, IsConfirmedBy, IsUntouched}
use lynxpay.Service.{save_payment, audit}
use lynxpay.Reversals.Delivery.{
  save_reversal_callback, matched_reversal, ReversalReceipt, store_reversal_callback,
  ReversalDelivery,
}
use lynxpay.Model.{
  ReversalCallback, ReversalRequest, Session, MerchantAccount, Settings, CallbackType,
}
use lynxpay.Reversals.Callback.{
  about, is_malformed, terminal_callback, screen_reversal_callback, callback_matched,
  finish_reversal_callback, callback_for_merchant, receive_reversal_callback,
}
use lynxpay.Reversals.Verdict.{Settles}
use lynxpay.Reversals.Verdict.{settle-Settles}
use lynxpay.Prelude.{
  arith, not, if_split, ℕ, true, false, ◌≡◌, ◌==◌, ◌⊎◌, inl, inr, sym, ◌∙◌, refl, Option, none,
  some, ◌∷◌, Ensures, first, Result, ok, err, Bool-cases, if_both,
}

-- The one way in which a callback changes the payments: it came from an allowed source, it matched a
-- reversal that had not ended, it confirms the reversal, the payment still is the one that the
-- reversal is bound to, and the reversal succeeds in the same commit.
pub record IsReversalBy (now : ℕ) (kind : CallbackType) (delivery : ReversalDelivery)
    (db d : Session) : Type 0 where
  pub merchant : MerchantAccount
  pub row : ReversalRequest
  pub allowed : delivery.allowed ≡ true
  pub matched : matched_reversal merchant kind delivery.fields db ≡ some row
  pub live : is_terminal row.status ≡ false
  pub paid : IsConfirmedBy kind delivery.fields row db d
  pub ended :
      d.reversals ≡ (save_reversal (succeeded_with now kind delivery.fields row) db).reversals

-- The payments and the ledger stay, or one payment is reversed.
abbrev pub Effect : ℕ → CallbackType → ReversalDelivery → Session → Session → Type 0
Effect now kind delivery db d = IsUntouched db d ⊎ IsReversalBy now kind delivery db d

module _ (settings : Settings) (now : ℕ) (merchant : MerchantAccount) (kind : CallbackType)
    (delivery : ReversalDelivery) (db : Session) where
  abbrev Ends : Result ReversalReceipt × Session → Type 0
  Ends s = Effect now kind delivery db s.1

  finish-Effect :
      (c : ReversalCallback) (r : ReversalRequest) (settled : Result Settled)
      → delivery.allowed ≡ true
      → matched_reversal merchant kind delivery.fields db ≡ some r
      → is_terminal r.status ≡ false
      → Ensures (Pays now kind delivery.fields r db) settled
      → Ensures (Settles db r) settled
      → Ends (finish_reversal_callback now c db settled)
  unfolding finish_reversal_callback save_reversal save_reversal_callback audit
  finish-Effect c r (err e) allowed matched live h k = inl (refl, refl)
  finish-Effect c r (ok s) allowed matched live (inl same) k = inl same
  finish-Effect c r (ok s) allowed matched live (inr (paid, e)) k = inr (record {
    merchant = merchant;
    row = r;
    allowed = allowed;
    matched = matched;
    live = live;
    paid = paid;
    ended = rw (e, k.0.0) refl;
  })

  matched-Effect :
      (c : ReversalCallback) (found : Option ReversalRequest)
      → delivery.allowed ≡ true
      → matched_reversal merchant kind delivery.fields db ≡ found
      → Ends (callback_matched settings now kind delivery.fields c db found)
  unfolding callback_matched terminal_callback save_reversal_callback audit
  matched-Effect c none allowed matched = inl (refl, refl)
  matched-Effect c (some r) allowed matched = elim (Bool-cases (is_terminal r.status)) [
    | inl y ↦ rw y (inl (refl, refl))
    | inr n ↦ rw n (
        finish-Effect (about r c) r _ allowed matched n
          (settle-Pays settings now delivery.fields r db kind)
          (settle-Settles settings now delivery.fields r db kind))
  ]

  screen-Effect :
      (c : ReversalCallback)
      → Ends (screen_reversal_callback settings now merchant kind delivery c db)
  unfolding screen_reversal_callback save_reversal_callback
  screen-Effect c = if_both Ends delivery.oversized (inl (refl, refl)) (
      if_split Ends (not delivery.allowed) (λ refused. inl (refl, refl))
        (λ allowed.
          if_both Ends (is_malformed kind delivery.fields) (inl (refl, refl))
            (matched-Effect c _ (ground (arith, allowed)) refl)))

-- The stored callback is no part of the effect.
stored-Effect :
    (now : ℕ) (kind : CallbackType) (delivery : ReversalDelivery) (merchant : MerchantAccount)
    (c : ReversalCallback) (db d : Session)
    → Effect now kind delivery (store_reversal_callback merchant c db) d
    → Effect now kind delivery db d
unfolding store_reversal_callback audit save_payment save_reversal matched_reversal
stored-Effect now kind delivery merchant c db d (inl h) = inl h
stored-Effect now kind delivery merchant c db d (inr h) = inr (record {
  merchant = h.merchant;
  row = h.row;
  allowed = h.allowed;
  matched = h.matched;
  live = h.live;
  paid = h.paid;
  ended = h.ended;
})

-- A reversal callback leaves every payment and the ledger as they are, unless its source is allowed, it
-- matches a reversal that has not ended and confirms it, and the payment is still the one that the
-- reversal is bound to. Then that one successful payment becomes reversed, with its ledger entry, and
-- the reversal succeeds in the same commit.
pub receive-Effect :
    (settings : Settings) (now merchant_id : ℕ) (kind : CallbackType) (delivery : ReversalDelivery)
    (db : Session)
    → Effect now kind delivery db
        (receive_reversal_callback settings now merchant_id (some kind) delivery db).1
unfolding receive_reversal_callback callback_for_merchant store_reversal_callback audit
receive-Effect settings now merchant_id kind delivery db =
    for_merchant (first (λ m. m.id == merchant_id) db.merchants)
  where
    for_merchant :
        (merchant : Option MerchantAccount)
        → Effect now kind delivery db
            (callback_for_merchant settings now kind delivery db merchant).1
    for_merchant none = inl (refl, refl)
    for_merchant (some merchant) =
        stored-Effect now kind delivery merchant _ db _
          (screen-Effect settings now merchant kind delivery _ _)

Effect-IsCoupled :
    (now : ℕ) (kind : CallbackType) (delivery : ReversalDelivery) (db d : Session)
    → IsCoupled db
    → Effect now kind delivery db d
    → IsCoupled d
Effect-IsCoupled now kind delivery db d c (inl (payments, entries)) =
    IsCoupled-same c entries payments
Effect-IsCoupled now kind delivery db d c (inr h) =
    let (p, found, confirms, reversible, (success, payments, entries)) = h.paid in
    let entry = move_entry p (reversed_payment p) in
    let noted : Session = record db { ledger = entry ∷ db.ledger } in
    let moved : Recorded db p noted (reversed_payment p) =
      (refl, refl, inr (rw success refl, refl)) in
    IsCoupled-same
      (save-IsCoupled c (Held-Recorded (Held-found (original_payment h.row) c found) moved))
      (entries ∙ sym (ledger-save (reversed_payment p) noted))
      (payments ∙ unfold save_payment in refl)

-- Whatever a reversal callback brings, on every branch, the ledger stays linked and shows the status
-- of every payment.
pub reversal_callback-IsCoupled :
    (settings : Settings) (now merchant_id : ℕ) (kind : Option CallbackType)
    (delivery : ReversalDelivery) (db : Session)
    → IsCoupled db
    → IsCoupled (receive_reversal_callback settings now merchant_id kind delivery db).1
reversal_callback-IsCoupled settings now merchant_id none delivery db c =
    unfold receive_reversal_callback in c
reversal_callback-IsCoupled settings now merchant_id (some kind) delivery db c =
    Effect-IsCoupled now kind delivery db _ c
      (receive-Effect settings now merchant_id kind delivery db)
