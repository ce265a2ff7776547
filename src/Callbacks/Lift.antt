-- ===== src/Callbacks/Lift.antt =====
-- From what the `try` block does to the payment it holds, to what the handler does to the table.
use lynxpay.Prelude.{
  none, some, refl, is_none, ◌||◌, truthy, not, if_both, Option, err, first, ℕ, ◌≡◌, Result, ok,
  List, Bool,
}
use lynxpay.Model.{
  IsKeyed, Rows, Rows-refl, write-Rows, MerchantAccount, Payment, PaymentAttempt, MpesaCallback,
  Session, Settings, Library,
}
use lynxpay.Callbacks.{
  store_callback, close_callback, process_callback, receive_for, screen_callback, answer_callback,
  commit_callback, Reply, CallbackRequest, Work, apply_callback, receive_mpesa_callback,
}
use lynxpay.Service.{save_payment, audit, save_callback, CallbackFields}
use lynxpay.Callbacks.Ledger.{apply_callback-Recorded, finish_tables}

module _ (R : CallbackFields → Payment → Payment → Type 0)
    (same : (f : CallbackFields) (p : Payment) → R f p p) (lib : Library) (settings : Settings)
    (now : ℕ) (req : CallbackRequest)
    (applied : (merchant : MerchantAccount) (w w' : Work)
      → apply_callback lib now merchant req.fields w ≡ ok w'
      → R req.fields w.payment w'.payment) where
  abbrev Moved : List Payment → Result Reply × Session → Type 0
  Moved before r = Rows (R req.fields) before r.1.payments

  abbrev still : (ps : List Payment) → Rows (R req.fields) ps ps
  still = Rows-refl (R req.fields) (same req.fields)

  commit-Moved :
      (merchant : MerchantAccount) (stored : Session) (raw : MpesaCallback) (w : Work)
      (r : Result Work) (test : Payment → Bool)
      → IsKeyed stored.payments
      → first test stored.payments ≡ some w.payment
      → w.db ≡ stored
      → apply_callback lib now merchant req.fields w ≡ r
      → Moved stored.payments (commit_callback settings now merchant req stored raw r)
  unfolding commit_callback
  commit-Moved merchant stored raw w (err e) test keyed found held a = still _
  commit-Moved merchant stored raw w (ok w') test keyed found held a =
      let (table, key, _) = apply_callback-Recorded lib now merchant req.fields w w' a in
      if_both (λ (db : Session). Rows (R req.fields) stored.payments db.payments)
        req.commit_conflict (unfold audit in still _)
        (rw ((finish_tables settings now w').1) (
          unfold save_payment in
          rw (table, held)
            (write-Rows (R req.fields) (same req.fields) test w.payment w'.payment stored.payments
              keyed found key (applied merchant w w' a))))

  answer-Moved :
      (merchant : MerchantAccount) (stored : Session) (w : Work) (previous : Option MpesaCallback)
      (test : Payment → Bool)
      → IsKeyed stored.payments
      → first test stored.payments ≡ some w.payment
      → w.db ≡ stored
      → Moved stored.payments (answer_callback lib settings now merchant req stored w previous)
  unfolding answer_callback close_callback save_callback audit
  answer-Moved merchant stored w (some previous) test keyed found held = still _
  answer-Moved merchant stored w none test keyed found held =
      commit-Moved merchant stored w.callback w _ test keyed found held refl

  process-Moved :
      (merchant : MerchantAccount) (stored : Session) (raw : MpesaCallback)
      (attempt : Option PaymentAttempt) (test : Payment → Bool) (found : Option Payment)
      → IsKeyed stored.payments
      → first test stored.payments ≡ found
      → Moved stored.payments
          (process_callback lib settings now merchant req stored raw attempt found)
  unfolding process_callback close_callback save_callback audit
  process-Moved merchant stored raw attempt test none keyed e = still _
  process-Moved merchant stored raw attempt test (some payment) keyed e =
      answer-Moved merchant stored _ _ test keyed e refl

  screen-Moved :
      (merchant : MerchantAccount) (callback : MpesaCallback) (stored : Session)
      → IsKeyed stored.payments
      → Moved stored.payments (screen_callback lib settings now merchant req callback stored)
  unfolding screen_callback close_callback save_callback audit
  screen-Moved merchant callback stored keyed =
      if_both (Moved stored.payments) req.oversized (still _) (
        if_both (Moved stored.payments) (not req.allowed) (still _) (
          if_both (Moved stored.payments)
            (not (truthy req.fields.checkout_request_id) || is_none req.fields.result_code)
            (still _) (process-Moved merchant stored callback _ _ _ keyed refl)))

  receive_for-Moved :
      (db : Session) (merchant : Option MerchantAccount)
      → IsKeyed db.payments
      → Moved db.payments (receive_for lib settings now req db merchant)
  unfolding receive_for store_callback audit
  receive_for-Moved db none keyed = still _
  receive_for-Moved db (some merchant) keyed = screen-Moved merchant _ _ keyed

  -- Row by row, the handler moves the payments by what the `try` block does to one of them.
  pub receive-Moved :
      (merchant_id : ℕ) (db : Session)
      → IsKeyed db.payments
      → Rows
          (R req.fields)
          db.payments
          (receive_mpesa_callback lib settings now merchant_id req db).1.payments
  unfolding receive_mpesa_callback
  receive-Moved merchant_id db keyed = receive_for-Moved db _ keyed
