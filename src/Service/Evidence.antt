-- ===== src/Service/Evidence.antt =====
-- `callback_matches_payment` of app/service.py, over the fields that `callback_fields` extracts.
use lynxpay.Prelude.{
  ℕ, pos, eq_ℤ, String, truthy, Option, none, some, List, same_codes, if◌then◌else◌,
}
use lynxpay.Model.{ReviewReason, Payment, Library}
use lynxpay.Phone.{normalize_kenyan_phone}

-- The dictionary that `callback_fields` returns; `amount` and `phone` are the texts that Python's
-- `str` gives for the JSON values.
pub record CallbackFields : Type 0 where
  pub checkout_request_id : Option String
  pub merchant_request_id : Option String
  pub result_code : Option String
  pub result_description : Option String
  pub mpesa_receipt_number : Option String
  pub amount : Option String
  pub phone : Option (List ℕ)

-- The phone is compared where the callback carries one.
unfoldable pub phone_mismatch : Library → Payment → Option (List ℕ) → Option ReviewReason
phone_mismatch lib payment none = none
phone_mismatch lib payment (some phone) = elim (normalize_kenyan_phone lib.is_decimal phone) [
  | none ↦ some ReviewReason.invalid_phone
  | some normal ↦
      if same_codes normal payment.customer_phone then none else some ReviewReason.phone_mismatch
]

unfoldable pub amount_mismatch :
    Library → Payment → Option (List ℕ) → Option String → Option ReviewReason
unfolding phone_mismatch
amount_mismatch lib payment phone none = some ReviewReason.missing_amount
amount_mismatch lib payment phone (some text) = elim (lib.quantize text) [
  | none ↦ some ReviewReason.invalid_amount
  | some amount ↦
      if eq_ℤ amount (pos payment.amount)
      then phone_mismatch lib payment phone
      else some ReviewReason.amount_mismatch
]

-- `none` for `(True, None)`, the reason for `(False, reason)`.
unfoldable pub callback_matches_payment : Library → Payment → CallbackFields → Option ReviewReason
unfolding amount_mismatch
callback_matches_payment lib payment fields =
    if truthy fields.mpesa_receipt_number
    then amount_mismatch lib payment fields.phone fields.amount
    else some ReviewReason.missing_receipt
