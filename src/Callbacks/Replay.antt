-- ===== src/Callbacks/Replay.antt =====
-- A success callback that is delivered again.
use lynxpay.Prelude.{
  ℕ, Bool, true, not, ◌||◌, ◌==◌, ◌≡◌, refl, inl, inr, Option, none, some, List, [], ◌∷◌, any,
  first, earliest, Bool-cases, Option-cases, if_both, truthy, is_none, Result, arith,
}
use lynxpay.Model.{
  Action, Processing, MerchantAccount, Payment, PaymentAttempt, MpesaCallback, Session, Settings,
  Library,
}
use lynxpay.Service.{audit, save_callback}
use lynxpay.Callbacks.{
  Reply, CallbackRequest, is_zero, same_success, previous_callback, new_callback, store_callback,
  close_callback, answer_callback, process_callback, screen_callback, receive_for,
  receive_mpesa_callback,
}

-- Payments, attempts, invoices, the ledger and the queue of webhooks are as they were.
pub record Untouched (db db' : Session) : Type 0 where
  pub payments : db'.payments ≡ db.payments
  pub attempts : db'.attempts ≡ db.attempts
  pub invoices : db'.invoices ≡ db.invoices
  pub ledger : db'.ledger ≡ db.ledger
  pub deliveries : db'.deliveries ≡ db.deliveries

-- A query over rows of which one passes finds one.
earliest_of_any :
    (test : MpesaCallback → Bool) (rows : List MpesaCallback)
    → any test rows ≡ true
    → (row : MpesaCallback) × (earliest test rows ≡ some row)
earliest_of_any test [] h = absurd (cc)
earliest_of_any test (x ∷ rows) h = elim (Option-cases (earliest test rows)) [
  | inr (y, e) ↦ (y, rw e)
  | inl e ↦ elim (Bool-cases (test x)) [
    | inl y ↦ (x, rw (e, y))
    | inr n ↦ let (row, f) = earliest_of_any test rows (rw n at h) in absurd (ground (arith, e, f))
  ]
]

previous_found :
    (merchant : MerchantAccount) (callback : MpesaCallback) (db : Session)
    → is_zero callback.result_code ≡ true
    → truthy callback.mpesa_receipt_number ≡ true
    → any (same_success merchant callback) db.callbacks ≡ true
    → (row : MpesaCallback) × (previous_callback db merchant callback ≡ some row)
unfolding previous_callback
previous_found merchant callback db paid receipt seen =
    let (row, e) = earliest_of_any (same_success merchant callback) db.callbacks seen in
    (row, rw (paid, receipt) e)

any-cons :
    (test : MpesaCallback → Bool) (x : MpesaCallback) (rows : List MpesaCallback)
    → any test rows ≡ true
    → any test (x ∷ rows) ≡ true
any-cons test x rows h = ground arith

stored-Spares :
    (merchant : MerchantAccount) (raw : MpesaCallback) (db : Session) {after : Session}
    → Untouched (store_callback merchant raw db) after
    → Untouched db after
unfolding store_callback audit
stored-Spares merchant raw db u = record {
  payments = u.payments;
  attempts = u.attempts;
  invoices = u.invoices;
  ledger = u.ledger;
  deliveries = u.deliveries;
}

module _ (lib : Library) (settings : Settings) (now : ℕ) (req : CallbackRequest)
    (paid : is_zero req.fields.result_code ≡ true)
    (receipt : truthy req.fields.mpesa_receipt_number ≡ true) where
  abbrev Spares : Session → Result Reply × Session → Type 0
  Spares db r = Untouched db r.1

  close-Spares :
      (merchant : MerchantAccount) (status : Processing) (action : Action)
      (callback : MpesaCallback) (db : Session)
      → Untouched db (close_callback now merchant status action callback db)
  unfolding close_callback save_callback audit
  close-Spares merchant status action callback db = record {
    payments = refl;
    attempts = refl;
    invoices = refl;
    ledger = refl;
    deliveries = refl;
  }

  process-Spares :
      (merchant : MerchantAccount) (stored : Session) (attempt : Option PaymentAttempt) (key : ℕ)
      (found : Option Payment)
      → any (same_success merchant (new_callback lib now key merchant req.fields)) stored.callbacks
        ≡ true
      → Spares stored (
          process_callback lib settings now merchant req stored
            (new_callback lib now key merchant req.fields)
            attempt
            found)
  unfolding process_callback answer_callback new_callback
  process-Spares merchant stored attempt key none seen = close-Spares merchant _ _ _ stored
  process-Spares merchant stored attempt key (some payment) seen =
      let raw : MpesaCallback = new_callback lib now key merchant req.fields in
      let callback : MpesaCallback = record raw { payment_id = some payment.id } in
      let (row, e) = previous_found merchant callback stored paid receipt seen in
      rw e (close-Spares merchant _ _ _ stored)

  screen-Spares :
      (merchant : MerchantAccount) (stored : Session) (key : ℕ)
      → any (same_success merchant (new_callback lib now key merchant req.fields)) stored.callbacks
        ≡ true
      → Spares stored (
          screen_callback lib settings now merchant req
            (new_callback lib now key merchant req.fields)
            stored)
  unfolding screen_callback
  screen-Spares merchant stored key seen =
      if_both (Spares stored) req.oversized (close-Spares merchant _ _ _ stored) (
        if_both (Spares stored) (not req.allowed) (close-Spares merchant _ _ _ stored) (
          if_both (Spares stored)
            (not (truthy req.fields.checkout_request_id) || is_none req.fields.result_code)
            (close-Spares merchant _ _ _ stored) (process-Spares merchant stored _ key _ seen)))

  -- A success callback with a receipt, of a known merchant, that repeats a callback already
  -- processed as a success (same checkout, receipt, amount and phone) changes no payment, attempt
  -- or invoice, writes nothing to the ledger and queues no webhook.
  pub replay-Untouched :
      (merchant_id : ℕ) (merchant : MerchantAccount) (db : Session)
      → first (λ m. m.id == merchant_id) db.merchants ≡ some merchant
      → any
          (same_success merchant (new_callback lib now db.next_id merchant req.fields))
          db.callbacks
        ≡ true
      → Untouched db (receive_mpesa_callback lib settings now merchant_id req db).1
  unfolding receive_mpesa_callback receive_for
  replay-Untouched merchant_id merchant db known seen =
      let raw : MpesaCallback = new_callback lib now db.next_id merchant req.fields in
      rw known (
        stored-Spares merchant raw db (
          screen-Spares merchant (store_callback merchant raw db) db.next_id
            (unfold store_callback audit in any-cons _ raw db.callbacks seen)))
