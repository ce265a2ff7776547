-- ===== src/Reversals/Callback.antt =====
-- `receive_reversal_callback` of app/routers/reversals.py: the handler.
use lynxpay.Reversals.Rows.{same_reversal_status, save_reversal, audit_reversal, is_terminal}
use lynxpay.Model.{
  Action, ReversalStatus, Settings, ReversalRequest, Session, MerchantAccount, ReversalProcessing,
  CallbackType, ReversalCallback,
}
use lynxpay.Prelude.{
  ℕ, Bool, not, ◌&&◌, ◌||◌, ◌==◌, truthy, Option, none, some, first, Result, ok, err, http,
  if◌then◌else◌,
}
use lynxpay.Reversals.Delivery.{
  ResultFields, ReversalDelivery, ReversalReceipt, is_status_type, new_reversal_callback,
  store_reversal_callback, close_as, matched_reversal,
}
use lynxpay.Reversals.Settle.{Settled, settle_reversal}

-- The last commit; an exception before it leaves the callback as it was stored.
unfoldable pub finish_reversal_callback :
    ℕ → ReversalCallback → Session → Result Settled → Result ReversalReceipt × Session
finish_reversal_callback now c db (err e) = (err e, db)
finish_reversal_callback now c db (ok s) = (
  ok ReversalReceipt.accepted,
  audit_reversal s.reversal (Action.reversal s.reversal.status)
      (save_reversal s.reversal (close_as now s.processing c s.db)),
)

-- A callback for a reversal that has ended.
unfoldable pub terminal_callback :
    ℕ → ReversalCallback → ReversalRequest → Session → Result ReversalReceipt × Session
terminal_callback now c r db = (
  ok ReversalReceipt.accepted,
  audit_reversal r Action.reversal_callback_terminal_conflict (
      close_as now
        (if same_reversal_status r.status ReversalStatus.succeeded
          then ReversalProcessing.duplicate
          else ReversalProcessing.terminal_state_conflict)
        c db),
)

-- `callback.reversal_request_id = reversal.id`
abbrev pub about : ReversalRequest → ReversalCallback → ReversalCallback
about r c = record c { reversal_request_id = some r.id }

unfoldable pub callback_matched :
    Settings
    → ℕ
    → CallbackType
    → ResultFields
    → ReversalCallback
    → Session
    → Option ReversalRequest
    → Result ReversalReceipt × Session
callback_matched settings now kind fields c db none =
    (ok ReversalReceipt.accepted, close_as now ReversalProcessing.unmatched c db)
callback_matched settings now kind fields c db (some r) =
    if is_terminal r.status
    then terminal_callback now (about r c) r db
    else finish_reversal_callback now (about r c) db (settle_reversal settings now kind fields r db)

-- No provider id, and no receipt in a status callback.
abbrev pub is_malformed : CallbackType → ResultFields → Bool
is_malformed kind fields =
    not (truthy fields.originator_conversation_id || truthy fields.conversation_id)
    && not (is_status_type kind && truthy fields.transaction_id)

unfoldable pub screen_reversal_callback :
    Settings
    → ℕ
    → MerchantAccount
    → CallbackType
    → ReversalDelivery
    → ReversalCallback
    → Session
    → Result ReversalReceipt × Session
screen_reversal_callback settings now merchant kind delivery c db =
    if delivery.oversized
    then (err (http 413), close_as now ReversalProcessing.oversized c db)
    else if not delivery.allowed
    then (ok ReversalReceipt.accepted, close_as now ReversalProcessing.source_rejected c db)
    else if is_malformed kind delivery.fields
    then (ok ReversalReceipt.accepted, close_as now ReversalProcessing.malformed c db)
    else callback_matched settings now kind delivery.fields c db
        (matched_reversal merchant kind delivery.fields db)

unfoldable pub callback_for_merchant :
    Settings
    → ℕ
    → CallbackType
    → ReversalDelivery
    → Session
    → Option MerchantAccount
    → Result ReversalReceipt × Session
callback_for_merchant settings now kind delivery db none = (err (http 404), db)
callback_for_merchant settings now kind delivery db (some merchant) =
    let c = new_reversal_callback now db.next_id merchant kind delivery.fields in
    screen_reversal_callback settings now merchant kind delivery c
      (store_reversal_callback merchant c db)

-- The path segment is `none` where it is no known type.
unfoldable pub receive_reversal_callback :
    Settings
    → ℕ
    → ℕ
    → Option CallbackType
    → ReversalDelivery
    → Session
    → Result ReversalReceipt × Session
receive_reversal_callback settings now merchant_id none delivery db = (err (http 404), db)
receive_reversal_callback settings now merchant_id (some kind) delivery db =
    callback_for_merchant settings now kind delivery db
      (first (λ m. m.id == merchant_id) db.merchants)
