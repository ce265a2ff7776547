-- ===== src/ProviderCodes/Classes.antt =====
-- The classes that result codes fall into.
use lynxpay.Prelude.{◌≡◌, ◌↔◌, ◌⊎◌, true, false, Option, none, some, String, text_eq, eq_iff, arith}
use lynxpay.Model.{PaymentStatus}
use lynxpay.ProviderCodes.{classify_mpesa_result}

-- A code is classified as a success, a failure, a timeout or unknown, and asks for a review
-- exactly when it is unknown.
classify_classes :
    (code : Option String)
    → let o = classify_mpesa_result code in
      ((o.target ≡ PaymentStatus.success) × (o.needs_review ≡ false))
      ⊎ ((o.target ≡ PaymentStatus.failed) × (o.needs_review ≡ false))
      ⊎ ((o.target ≡ PaymentStatus.timeout) × (o.needs_review ≡ false))
      ⊎ ((o.target ≡ PaymentStatus.unknown) × (o.needs_review ≡ true))
unfolding classify_mpesa_result
classify_classes none = ground arith
classify_classes (some code) = ground arith

-- Exactly the code "0" is classified as a success.
pub classify-success :
    (code : String)
    → ((classify_mpesa_result (some code)).target ≡ PaymentStatus.success) ↔ (code ≡ "0")
unfolding classify_mpesa_result
classify-success code = ground (arith, eq_iff code "0")

-- A code other than "0" leads to a failure, a timeout or an unknown outcome.
pub classify-not_success :
    (code : String)
    → text_eq code "0" ≡ false
    → let t = (classify_mpesa_result (some code)).target in
      (t ≡ PaymentStatus.failed) ⊎ (t ≡ PaymentStatus.timeout) ⊎ (t ≡ PaymentStatus.unknown)
unfolding classify_mpesa_result
classify-not_success code h = ground arith
