-- ===== src/Service/Matching.antt =====
-- What `callback_matches_payment` accepts.
use lynxpay.Prelude.{
  ◌∙◌, ℕ, ℤ, pos, eq_ℤ, true, ◌≡◌, refl, ap, ◌⊎◌, inl, inr, ◌↔◌, String, Option, none, some, List,
  [], ◌∷◌, truthy, same_codes, arith,
}
use lynxpay.Model.{Payment, Library}
use lynxpay.Phone.{normalize_kenyan_phone}
use lynxpay.Service.{CallbackFields, phone_mismatch, amount_mismatch, callback_matches_payment}

-- The evidence that the payment was made: a receipt, its amount, and its phone where there is one.
pub record IsEvidence (lib : Library) (payment : Payment) (fields : CallbackFields) : Type 0 where
  pub receipt : truthy fields.mpesa_receipt_number ≡ true
  pub amount :
      (text : String) × (fields.amount ≡ some text)
      × (lib.quantize text ≡ some (pos payment.amount))
  pub phone :
      (fields.phone ≡ none)
      ⊎ ((text : List ℕ) × (fields.phone ≡ some text)
          × (normalize_kenyan_phone lib.is_decimal text ≡ some payment.customer_phone))

same_codes-eq : (a b : List ℕ) → same_codes a b ≡ true → a ≡ b
same_codes-eq [] [] h = refl
same_codes-eq (x ∷ a) (y ∷ b) h = ground (arith, same_codes-eq a b)
same_codes-eq [] (y ∷ b) h = cc
same_codes-eq (x ∷ a) [] h = cc

same_codes_self : (a : List ℕ) → same_codes a a ≡ true
same_codes_self [] = refl
same_codes_self (x ∷ a) = ground (arith, same_codes_self a)

eq_ℤ-eq : (a b : ℤ) → eq_ℤ a b ≡ true → a ≡ b
eq_ℤ-eq a b h = ground arith

module _ (lib : Library) (payment : Payment) where
  phone_accepted :
      (phone : Option (List ℕ))
      → phone_mismatch lib payment phone ≡ none
      → (phone ≡ none)
        ⊎ ((text : List ℕ) × (phone ≡ some text)
            × (normalize_kenyan_phone lib.is_decimal text ≡ some payment.customer_phone))
  unfolding phone_mismatch
  phone_accepted none h = inl refl
  phone_accepted (some text) h =
      inr (text, refl, found (normalize_kenyan_phone lib.is_decimal text) refl)
    where
      found :
          (o : Option (List ℕ))
          → normalize_kenyan_phone lib.is_decimal text ≡ o
          → normalize_kenyan_phone lib.is_decimal text ≡ some payment.customer_phone
      found none e = absurd (ground (arith, e))
      found (some normal) e = e ∙ ap some (same_codes-eq normal _ (ground (arith, e)))

  amount_accepted :
      (phone : Option (List ℕ)) (amount : Option String)
      → amount_mismatch lib payment phone amount ≡ none
      → ((text : String) × (amount ≡ some text) × (lib.quantize text ≡ some (pos payment.amount)))
        × (phone_mismatch lib payment phone ≡ none)
  unfolding amount_mismatch
  amount_accepted phone none h = absurd (cc)
  amount_accepted phone (some text) h = ((text, refl, found (lib.quantize text) refl), ground arith)
    where
      found : (o : Option ℤ) → lib.quantize text ≡ o → lib.quantize text ≡ some (pos payment.amount)
      found none e = absurd (ground (arith, e))
      found (some amount) e = e ∙ ap some (eq_ℤ-eq amount _ (ground (arith, e)))

  no_receipt :
      (fields : CallbackFields)
      → callback_matches_payment lib payment fields ≡ none
      → (truthy fields.mpesa_receipt_number ≡ true)
        × (amount_mismatch lib payment fields.phone fields.amount ≡ none)
  unfolding callback_matches_payment
  no_receipt fields h = ground arith

  evidence_matches :
      (fields : CallbackFields)
      → IsEvidence lib payment fields
      → ((text : String) × (fields.amount ≡ some text)
          × (lib.quantize text ≡ some (pos payment.amount)))
      → ((fields.phone ≡ none)
          ⊎ ((text : List ℕ) × (fields.phone ≡ some text)
              × (normalize_kenyan_phone lib.is_decimal text ≡ some payment.customer_phone)))
      → callback_matches_payment lib payment fields ≡ none
  unfolding callback_matches_payment
  evidence_matches fields e (text, ea, eq) phones =
      ground (arith, ea, eq, e.receipt, same_codes_self payment.customer_phone)

-- `callback_matches_payment` accepts exactly the callbacks that carry a receipt, the amount of the
-- payment and, where they carry a phone, one that normalises to the payment's.
pub callback_matches_iff :
    (lib : Library) (payment : Payment) (fields : CallbackFields)
    → (callback_matches_payment lib payment fields ≡ none) ↔ IsEvidence lib payment fields
unfolding callback_matches_payment
callback_matches_iff lib payment fields = (
  λ h.
      let (receipt, rest) = no_receipt lib payment fields h in
      let (amount, phones) = amount_accepted lib payment fields.phone fields.amount rest in
      record {
        receipt = receipt;
        amount = amount;
        phone = phone_accepted lib payment fields.phone phones;
      },
  λ (e : IsEvidence lib payment fields). evidence_matches lib payment fields e e.amount e.phone,
)
