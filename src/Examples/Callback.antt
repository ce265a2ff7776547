-- ===== src/Examples/Callback.antt =====
-- The callback handler at the waiting payment.
use lynxpay.Phone.{normalize_kenyan_phone}
use lynxpay.Prelude.{any, pos, true, ◌≡◌, refl, inl, some, [], ◌∷◌, ◌↔◌, none}
use lynxpay.Model.{Processing, MpesaCallback, Session, Rows}
use lynxpay.Service.{callback_matches_payment}
use lynxpay.Service.Coupling.{IsCoupled}
use lynxpay.Service.Matching.{IsEvidence, callback_matches_iff}
use lynxpay.Callbacks.{
  same_success, normalized_callback_evidence, receive_mpesa_callback, new_callback,
}
use lynxpay.Callbacks.Safety.{CallbackMove, receive_moves}
use lynxpay.Callbacks.Ledger.{receive-IsCoupled}
use lynxpay.Callbacks.Replay.{Untouched, replay-Untouched}
use lynxpay.Examples.Data.{phone, settings, library, merchant, sent, sent_db, paying, paying_fields}

pub sent_db-IsCoupled : IsCoupled sent_db
sent_db-IsCoupled = record {
  linked = (refl, inl refl, (refl, inl refl, (refl, refl, tt)));
  current = (refl, tt);
}

receive_moves_example :
    Rows
      (CallbackMove library paying_fields)
      sent_db.payments
      (receive_mpesa_callback library settings 1010 1 paying sent_db).1.payments
receive_moves_example = receive_moves library settings 1010 1 paying sent_db (tt, tt)

receive-IsCoupled_example :
    IsCoupled (receive_mpesa_callback library settings 1010 1 paying sent_db).1
receive-IsCoupled_example =
    receive-IsCoupled library settings 1010 paying 1 sent_db sent_db-IsCoupled

-- The same callback, processed before.
abbrev processed : MpesaCallback
processed = record {
  id = 3;
  merchant_account_id = 1;
  payment_id = some 7;
  checkout_request_id = some "ws_1";
  merchant_request_id = some "mr_1";
  mpesa_receipt_number = some "RKT1";
  callback_amount = some (pos 10000);
  callback_phone = some phone;
  result_code = some "0";
  result_description = some "done";
  processed = true;
  processing_status = Processing.processed_success;
  processed_at = some 1005;
  duplicate_of_callback_id = none;
  received_at = 1005;
}

abbrev replayed_db : Session
replayed_db = record sent_db { callbacks = processed ∷ [] }

seen_before :
    any
      (same_success merchant (new_callback library 1010 replayed_db.next_id merchant paying_fields))
      replayed_db.callbacks
    ≡ true
unfolding new_callback normalized_callback_evidence normalize_kenyan_phone
seen_before = refl

replay-Untouched_example :
    Untouched replayed_db (receive_mpesa_callback library settings 1010 1 paying replayed_db).1
replay-Untouched_example =
    replay-Untouched library settings 1010 paying refl refl 1 merchant replayed_db refl seen_before

callback_matches_iff_example :
    (callback_matches_payment library sent paying_fields ≡ none)
    ↔ IsEvidence library sent paying_fields
callback_matches_iff_example = callback_matches_iff library sent paying_fields
