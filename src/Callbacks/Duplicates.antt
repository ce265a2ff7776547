-- ===== src/Callbacks/Duplicates.antt =====
-- The search for an earlier delivery of the same callback.
use lynxpay.Prelude.{
  String, Bool, true, false, not, ◌&&◌, ◌==◌, truthy, same_text, same_ℤ, same_phone, text_eq,
  Option, none, some, earliest, if◌then◌else◌,
}
use lynxpay.Model.{Processing, MerchantAccount, MpesaCallback, Session}

abbrev is_success : Processing → Bool
is_success Processing.processed_success = true
is_success _ = false

abbrev is_failure : Processing → Bool
is_failure Processing.processed_failure = true
is_failure Processing.processed_unknown = true
is_failure _ = false

-- `fields["result_code"] == "0"`
abbrev pub is_zero : Option String → Bool
is_zero none = false
is_zero (some code) = text_eq code "0"

-- A processed success callback with the same receipt, amount and phone.
abbrev pub same_success : MerchantAccount → MpesaCallback → MpesaCallback → Bool
same_success merchant callback row =
    not (row.id == callback.id)
    && row.merchant_account_id == merchant.id
    && same_text row.checkout_request_id callback.checkout_request_id
    && same_text row.mpesa_receipt_number callback.mpesa_receipt_number
    && same_ℤ row.callback_amount callback.callback_amount
    && same_phone row.callback_phone callback.callback_phone
    && is_success row.processing_status

-- A processed failure callback with the same code and description.
abbrev pub same_failure : MerchantAccount → MpesaCallback → MpesaCallback → Bool
same_failure merchant callback row =
    not (row.id == callback.id)
    && row.merchant_account_id == merchant.id
    && same_text row.checkout_request_id callback.checkout_request_id
    && same_text row.result_code callback.result_code
    && same_text row.result_description callback.result_description
    && is_failure row.processing_status

-- `previous`: the callback's own columns hold the fields and the normalised evidence.
unfoldable pub previous_callback : Session → MerchantAccount → MpesaCallback → Option MpesaCallback
previous_callback db merchant callback =
    if is_zero callback.result_code
    then (if truthy callback.mpesa_receipt_number
        then earliest (same_success merchant callback) db.callbacks
        else none)
    else earliest (same_failure merchant callback) db.callbacks
