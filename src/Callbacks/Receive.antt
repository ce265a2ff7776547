-- ===== src/Callbacks/Receive.antt =====
-- The beginning of `receive_mpesa_callback`: the stored callback, and the early returns.
use lynxpay.Prelude.{
  ℕ, ℤ, ◌+◌, Bool, true, false, ◌&&◌, ◌==◌, same_text, Option, none, some, List, ◌∷◌, first,
}
use lynxpay.Model.{
  Processing, Action, MerchantAccount, Payment, PaymentAttempt, MpesaCallback, Session, Library,
}
use lynxpay.Phone.{normalize_kenyan_phone}
use lynxpay.Service.{CallbackFields, audit, save_callback}

-- What the handler answers: 413, or `{"ResultCode": 0, "ResultDesc": "Accepted"}`.
pub data Reply : Type 0 where
  accepted too_large : Reply

-- One delivery of a callback: its size against the limit, `callback_allowed`, its fields, and
-- whether the last commit meets a unique index.
pub record CallbackRequest : Type 0 where
  pub oversized : Bool
  pub allowed : Bool
  pub fields : CallbackFields
  pub commit_conflict : Bool

abbrev or_none {ℓ κ} : {A : Type ℓ} {B : Type κ} → Option A → (A → Option B) → Option B
or_none none f = none
or_none (some a) f = f a

-- `_normalized_callback_evidence`
unfoldable pub normalized_callback_evidence : Library → CallbackFields → Option ℤ × Option (List ℕ)
normalized_callback_evidence lib fields = (
  or_none fields.amount lib.quantize,
  or_none fields.phone (normalize_kenyan_phone lib.is_decimal),
)

unfoldable pub new_callback : Library → ℕ → ℕ → MerchantAccount → CallbackFields → MpesaCallback
new_callback lib now key merchant fields =
    let (amount, phone) = normalized_callback_evidence lib fields in
    record {
      id = key;
      merchant_account_id = merchant.id;
      payment_id = none;
      checkout_request_id = fields.checkout_request_id;
      merchant_request_id = fields.merchant_request_id;
      mpesa_receipt_number = fields.mpesa_receipt_number;
      callback_amount = amount;
      callback_phone = phone;
      result_code = fields.result_code;
      result_description = fields.result_description;
      processed = false;
      processing_status = Processing.received;
      processed_at = none;
      duplicate_of_callback_id = none;
      received_at = now;
    }

abbrev pub audit_callback : MerchantAccount → Action → MpesaCallback → Session → Session
audit_callback merchant action callback =
    audit merchant.organization_id (some merchant.id) action callback.id

-- The first commit: the callback and its audit entry.
unfoldable pub store_callback : MerchantAccount → MpesaCallback → Session → Session
store_callback merchant callback db =
    audit_callback merchant Action.callback_received callback
      (record db { next_id = db.next_id + 1; callbacks = callback ∷ db.callbacks })

-- An early return: the callback closed with a status, and an audit entry.
unfoldable pub close_callback :
    ℕ → MerchantAccount → Processing → Action → MpesaCallback → Session → Session
close_callback now merchant status action callback db = audit_callback merchant action callback (
    save_callback
      (record callback { processing_status = status; processed = true; processed_at = some now })
      db)

-- `matched_attempt`
unfoldable pub matched_attempt : Session → MerchantAccount → CallbackFields → Option PaymentAttempt
matched_attempt db merchant fields =
    first
      (λ a.
        a.merchant_account_id == merchant.id
        && same_text a.checkout_request_id fields.checkout_request_id)
      db.attempts

-- The filter of `payment_query`.
abbrev pub payment_test : MerchantAccount → CallbackFields → Option PaymentAttempt → Payment → Bool
payment_test merchant fields none p =
    p.merchant_account_id == merchant.id
    && same_text p.checkout_request_id fields.checkout_request_id
payment_test merchant fields (some attempt) p =
    p.merchant_account_id == merchant.id && p.id == attempt.payment_id
