-- ===== src/Reversals/Settle.antt =====
-- `receive_reversal_callback` of app/routers/reversals.py: what a callback makes of its reversal and
-- of the payment.
use lynxpay.Service.{save_payment, queue_webhooks, transition_and_record}
use lynxpay.Reversals.{reversal_binding_error, BindingError}
use lynxpay.Reversals.Rows.{success_or_reversed, original_payment}
use lynxpay.Model.{
  EventType, PaymentStatus, same_status, Payment, ReversalStatus, Settings, ReversalRequest,
  Session, ReversalProcessing, CallbackType,
}
use lynxpay.Prelude.{
  ℕ, Bool, true, false, ◌&&◌, ◌||◌, text_eq, same_text, truthy, String, Option, none, some, first,
  Result, ok, err, attribute_error, if◌then◌else◌,
}
use lynxpay.Reversals.Delivery.{ResultFields}

-- `transaction_status in {…}`
abbrev pub status_confirms_reversal : String → Bool
status_confirms_reversal status =
    text_eq status "reversed"
    || text_eq status "transaction reversed"
    || text_eq status "fully reversed"

abbrev pub is_zero_code : ResultFields → Bool
is_zero_code fields = same_text fields.result_code (some "0")

-- `provider_confirms_reversal`
abbrev pub provider_confirms_reversal : CallbackType → ResultFields → Bool
provider_confirms_reversal CallbackType.result fields = is_zero_code fields
provider_confirms_reversal CallbackType.status_result fields =
    is_zero_code fields && status_confirms_reversal fields.transaction_status
provider_confirms_reversal _ fields = false

-- What the handler writes: the session, the reversal, and the status of the callback.
pub record Settled : Type 0 where
  pub db : Session
  pub reversal : ReversalRequest
  pub processing : ReversalProcessing

-- A new status without a result code, and with the code of the callback.
abbrev pub moved_to : ℕ → ReversalStatus → ReversalRequest → ReversalRequest
moved_to now status r = record r { status = status; completed_at = some now }

abbrev pub resulted_in : ℕ → ReversalStatus → ResultFields → ReversalRequest → ReversalRequest
resulted_in now status fields r = record r {
  status = status;
  response_code = fields.result_code;
  completed_at = some now;
}

abbrev pub result_transaction : CallbackType → ResultFields → Option String → Option String
result_transaction CallbackType.result fields old =
    if truthy fields.transaction_id then fields.transaction_id else old
result_transaction _ fields old = old

abbrev pub succeeded_with : ℕ → CallbackType → ResultFields → ReversalRequest → ReversalRequest
succeeded_with now kind fields r = record r {
  status = ReversalStatus.succeeded;
  provider_transaction_id = result_transaction kind fields r.provider_transaction_id;
  response_code = fields.result_code;
  completed_at = some now;
}

-- The flush of the reversed payment, and its webhooks.
abbrev pub queue_reversed : Settings → ℕ → Session × Payment → Session
queue_reversed settings now (db, payment) =
    queue_webhooks settings now payment (EventType.payment PaymentStatus.reversed)
      (save_payment payment db)

unfoldable pub queue_moved : Settings → ℕ → Result (Session × Payment) → Result Session
queue_moved settings now (err e) = err e
queue_moved settings now (ok moved) = ok (queue_reversed settings now moved)

-- `if payment.status == "success": …`
unfoldable pub reverse_payment : Settings → ℕ → Payment → Session → Result Session
reverse_payment settings now payment db =
    if same_status payment.status PaymentStatus.success
    then queue_moved settings now (
        transition_and_record now PaymentStatus.reversed (EventType.payment PaymentStatus.reversed)
          db payment)
    else ok db

-- The columns that a confirmed reversal gets.
unfoldable pub confirmed_with :
    ℕ → CallbackType → ResultFields → ReversalRequest → Result Session → Result Settled
confirmed_with now kind fields r (err e) = err e
confirmed_with now kind fields r (ok db) = ok (record {
  db = db;
  reversal = succeeded_with now kind fields r;
  processing = ReversalProcessing.processed_success;
})

-- A confirmation, with the binding to the payment checked again.
unfoldable pub confirm_bound :
    Settings
    → ℕ
    → CallbackType
    → ResultFields
    → ReversalRequest
    → Session
    → Option BindingError
    → Option Payment
    → Result Settled
confirm_bound settings now kind fields r db (some error) payment = ok (record {
  db = db;
  reversal = moved_to now ReversalStatus.unknown r;
  processing = ReversalProcessing.payment_binding_conflict;
})
confirm_bound settings now kind fields r db none none = err attribute_error
confirm_bound settings now kind fields r db none (some payment) =
    confirmed_with now kind fields r (reverse_payment settings now payment db)

unfoldable pub confirm_reversal :
    Settings
    → ℕ
    → CallbackType
    → ResultFields
    → ReversalRequest
    → Session
    → Option Payment
    → Result Settled
confirm_reversal settings now kind fields r db payment =
    confirm_bound settings now kind fields r db
      (reversal_binding_error success_or_reversed r payment) payment

-- `if not provider_confirms_reversal: …` of a result.
unfoldable pub result_or_failure :
    Settings → ℕ → ResultFields → ReversalRequest → Session → Bool → Result Settled
result_or_failure settings now fields r db true =
    confirm_reversal settings now CallbackType.result fields r db
      (first (original_payment r) db.payments)
result_or_failure settings now fields r db false = ok (record {
  db = db;
  reversal = resulted_in now ReversalStatus.failed fields r;
  processing = ReversalProcessing.processed_failure;
})

-- The same of a status result, whose code is zero here.
unfoldable pub status_or_unknown :
    Settings → ℕ → ResultFields → ReversalRequest → Session → Bool → Result Settled
status_or_unknown settings now fields r db true =
    confirm_reversal settings now CallbackType.status_result fields r db
      (first (original_payment r) db.payments)
status_or_unknown settings now fields r db false = ok (record {
  db = db;
  reversal = resulted_in now ReversalStatus.unknown fields r;
  processing = ReversalProcessing.status_query_not_reversed;
})

-- `callback_type == "status-result" and result_code != "0"`, and the status results with code zero.
unfoldable pub status_inconclusive :
    Settings → ℕ → ResultFields → ReversalRequest → Session → Bool → Result Settled
status_inconclusive settings now fields r db false = ok (record {
  db = db;
  reversal = resulted_in now ReversalStatus.unknown fields r;
  processing = ReversalProcessing.status_query_inconclusive;
})
status_inconclusive settings now fields r db true =
    status_or_unknown settings now fields r db
      (provider_confirms_reversal CallbackType.status_result fields)

-- The branches on the type of the callback.
unfoldable pub settle_reversal :
    Settings → ℕ → CallbackType → ResultFields → ReversalRequest → Session → Result Settled
settle_reversal settings now CallbackType.timeout fields r db = ok (record {
  db = db;
  reversal = moved_to now ReversalStatus.timeout r;
  processing = ReversalProcessing.processed_timeout;
})
settle_reversal settings now CallbackType.status_timeout fields r db = ok (record {
  db = db;
  reversal = moved_to now ReversalStatus.unknown r;
  processing = ReversalProcessing.status_query_timeout;
})
settle_reversal settings now CallbackType.status_result fields r db =
    status_inconclusive settings now fields r db (is_zero_code fields)
settle_reversal settings now CallbackType.result fields r db =
    result_or_failure settings now fields r db
      (provider_confirms_reversal CallbackType.result fields)
