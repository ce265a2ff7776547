-- ===== src/Callbacks/Handler.antt =====
-- The end of `receive_mpesa_callback`, and the whole of it.
use lynxpay.Prelude.{
  ℕ, true, not, ◌||◌, ◌==◌, truthy, is_none, Option, none, some, first, Result, ok, err, http,
  if◌then◌else◌,
}
use lynxpay.Model.{
  Processing, EventType, Action, MerchantAccount, Payment, PaymentAttempt, MpesaCallback, Session,
  Settings, Library,
}
use lynxpay.Service.{queue_webhooks, save_payment, save_attempt, save_callback}
use lynxpay.Callbacks.Receive.{
  Reply, accepted, too_large, CallbackRequest, new_callback, audit_callback, store_callback,
  close_callback, matched_attempt, payment_test,
}
use lynxpay.Callbacks.Duplicates.{previous_callback}
use lynxpay.Callbacks.Apply.{Work}
use lynxpay.Callbacks.Outcome.{apply_callback}

unfoldable pub save_matched : Option PaymentAttempt → Session → Session
save_matched none db = db
save_matched (some attempt) db = save_attempt attempt db

queue_event : Settings → ℕ → Payment → Option EventType → Session → Session
queue_event settings now payment none db = db
queue_event settings now payment (some event) db = queue_webhooks settings now payment event db

-- The rows flushed, the callback processed and the webhooks queued.
unfoldable pub finish_callback : Settings → ℕ → Work → Session
unfolding save_matched queue_event
finish_callback settings now w = queue_event settings now w.payment w.event (
    save_callback (record w.callback { processed = true; processed_at = some now })
      (save_matched w.attempt (save_payment w.payment w.db)))

-- The last commit. An error that the handler does not catch, or a unique index, leaves what the
-- first commit stored.
unfoldable pub commit_callback :
    Settings
    → ℕ
    → MerchantAccount
    → CallbackRequest
    → Session
    → MpesaCallback
    → Result Work
    → Result Reply × Session
commit_callback settings now merchant req stored raw (err e) = (err e, stored)
commit_callback settings now merchant req stored raw (ok w) = (
  ok accepted,
  if req.commit_conflict
      then audit_callback merchant Action.callback_unique_constraint_blocked raw stored
      else finish_callback settings now w,
)

-- `if previous: …`
unfoldable pub answer_callback :
    Library
    → Settings
    → ℕ
    → MerchantAccount
    → CallbackRequest
    → Session
    → Work
    → Option MpesaCallback
    → Result Reply × Session
answer_callback lib settings now merchant req stored w (some previous) = (
  ok accepted,
  close_callback now merchant Processing.duplicate Action.duplicate_callback_detected
      (record (w.callback) { duplicate_of_callback_id = some previous.id }) stored,
)
answer_callback lib settings now merchant req stored w none =
    commit_callback settings now merchant req stored w.callback
      (apply_callback lib now merchant req.fields w)

-- `if not payment: …`; from here on the callback names its payment.
unfoldable pub process_callback :
    Library
    → Settings
    → ℕ
    → MerchantAccount
    → CallbackRequest
    → Session
    → MpesaCallback
    → Option PaymentAttempt
    → Option Payment
    → Result Reply × Session
process_callback lib settings now merchant req stored raw attempt none = (
  ok accepted,
  close_callback now merchant Processing.unmatched Action.callback_unmatched raw stored,
)
process_callback lib settings now merchant req stored raw attempt (some payment) =
    let callback = record raw { payment_id = some payment.id } in
    answer_callback lib settings now merchant req stored
      (record {
        db = stored;
        payment = payment;
        attempt = attempt;
        callback = callback;
        event = none;
      })
      (previous_callback stored merchant callback)

-- After the raw callback is stored: the early returns, then the payment.
unfoldable pub screen_callback :
    Library
    → Settings
    → ℕ
    → MerchantAccount
    → CallbackRequest
    → MpesaCallback
    → Session
    → Result Reply × Session
screen_callback lib settings now merchant req callback stored =
    if req.oversized
    then (
      ok too_large,
      close_callback now merchant Processing.oversized Action.callback_oversized_rejected callback
          stored,
    )
    else if not req.allowed
    then (
      ok accepted,
      close_callback now merchant Processing.source_rejected Action.callback_source_rejected
          callback stored,
    )
    else if not (truthy req.fields.checkout_request_id) || is_none req.fields.result_code
    then (
      ok accepted,
      close_callback now merchant Processing.malformed Action.callback_malformed callback stored,
    )
    else (let attempt = matched_attempt stored merchant req.fields in
        process_callback lib settings now merchant req stored callback attempt
          (first (payment_test merchant req.fields attempt) stored.payments))

-- `if not merchant: …`
unfoldable pub receive_for :
    Library
    → Settings
    → ℕ
    → CallbackRequest
    → Session
    → Option MerchantAccount
    → Result Reply × Session
receive_for lib settings now req db none = (err (http 404), db)
receive_for lib settings now req db (some merchant) =
    let callback = new_callback lib now db.next_id merchant req.fields in
    screen_callback lib settings now merchant req callback (store_callback merchant callback db)

-- The whole handler.
unfoldable pub receive_mpesa_callback :
    Library → Settings → ℕ → ℕ → CallbackRequest → Session → Result Reply × Session
receive_mpesa_callback lib settings now merchant_id req db =
    receive_for lib settings now req db (first (λ m. m.id == merchant_id) db.merchants)
