-- ===== src/ProviderCodes.antt =====
-- app/provider_codes.py: what a Daraja result code says of a payment.
pub mod Classes
use lynxpay.Prelude.{Bool, true, false, Option, none, some, String, text_eq, if◌then◌else◌}
use lynxpay.Model.{PaymentStatus, Category}

pub record ProviderOutcome : Type 0 where
  pub target : PaymentStatus
  pub category : Category
  pub needs_review : Bool

abbrev outcome : PaymentStatus → Category → Bool → ProviderOutcome
outcome t c r = record { target = t; category = c; needs_review = r }

-- `KNOWN_RESULTS`, with the value that `get` falls back on.
known_results : String → ProviderOutcome
known_results code =
    if text_eq code "0"
    then outcome PaymentStatus.success Category.completed false
    else if text_eq code "1"
    then outcome PaymentStatus.failed Category.insufficient_funds false
    else if text_eq code "1001"
    then outcome PaymentStatus.failed Category.subscriber_locked false
    else if text_eq code "1019"
    then outcome PaymentStatus.timeout Category.transaction_expired false
    else if text_eq code "1032"
    then outcome PaymentStatus.failed Category.customer_cancelled false
    else if text_eq code "1037"
    then outcome PaymentStatus.timeout Category.provider_callback_timeout false
    else if text_eq code "2001"
    then outcome PaymentStatus.failed Category.invalid_customer_credentials false
    else if text_eq code "1025"
    then outcome PaymentStatus.unknown Category.provider_unclassified true
    else if text_eq code "9999"
    then outcome PaymentStatus.unknown Category.provider_internal_error true
    else outcome PaymentStatus.unknown Category.unrecognized_provider_result true

unfoldable pub classify_mpesa_result : Option String → ProviderOutcome
unfolding known_results
classify_mpesa_result none = known_results ""
classify_mpesa_result (some code) = known_results code
