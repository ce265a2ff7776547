-- ===== src/Examples/Rules.antt =====
-- The state machine, the provider codes and the phone numbers at single values.
use lynxpay.StateMachine.{transition_payment}
use lynxpay.StateMachine.Edges.{transition_payment_edges, ◌⟶◌}
use lynxpay.Phone.{removed}
use lynxpay.Phone.Shape.{normalize_idem}
use lynxpay.Phone.Forms.{IsLocal, normalize_forms}
use lynxpay.ProviderCodes.Classes.{classify-success}
use lynxpay.ProviderCodes.{classify_mpesa_result}
use lynxpay.Model.{PaymentStatus, Payment}
use lynxpay.Prelude.{
  invalid_transition, err, ok, String, refl, inl, length, ◌++◌, ◌⊎◌, [], true, ◌↔◌, ◌∷◌, ℕ, ◌≡◌,
  some, List,
}
use lynxpay.StateMachine.Reach.{run-IsSettled, Op, run, IsSettled}
use lynxpay.Phone.{country, normalize_kenyan_phone, kenyan_mobile}
use lynxpay.Examples.Data.{sent, ascii_digit, phone}

transition_payment_edges_example :
    (((sent.status ≡ PaymentStatus.success) ⊎ (sent.status ⟶ PaymentStatus.success)) ↔ (
      transition_payment sent PaymentStatus.success
      ≡ ok (record sent { status = PaymentStatus.success }, sent.status)))
    × (¬ ((sent.status ≡ PaymentStatus.success) ⊎ (sent.status ⟶ PaymentStatus.success))
        ↔ (transition_payment sent PaymentStatus.success ≡ err invalid_transition))
transition_payment_edges_example = transition_payment_edges sent PaymentStatus.success

abbrev paid : Payment
paid = record sent { status = PaymentStatus.success }

run-IsSettled_example :
    IsSettled
      (run paid
        (Op.retry ∷ Op.move PaymentStatus.failed ∷ Op.move PaymentStatus.reversed ∷ [])).status
run-IsSettled_example =
    run-IsSettled paid
      (Op.retry ∷ Op.move PaymentStatus.failed ∷ Op.move PaymentStatus.reversed ∷ []) (inl refl)

abbrev zero_code : String
zero_code = "0"

classify-success_example :
    ((classify_mpesa_result (some zero_code)).target ≡ PaymentStatus.success) ↔ (zero_code ≡ "0")
classify-success_example = classify-success zero_code

normal : normalize_kenyan_phone ascii_digit (43 ∷ phone) ≡ some phone
unfolding normalize_kenyan_phone
normal = refl

normalize_idem_example :
    (kenyan_mobile ascii_digit phone ≡ true)
    × (length phone ≡ 12)
    × (normalize_kenyan_phone ascii_digit phone ≡ some phone)
normalize_idem_example = normalize_idem ascii_digit (43 ∷ phone) normal

abbrev rest : List ℕ
rest = 49 ∷ 50 ∷ 51 ∷ 52 ∷ 53 ∷ 54 ∷ 55 ∷ 56 ∷ []

local : IsLocal ascii_digit 55 rest
unfolding removed
local = (refl, refl, (refl, (refl, (refl, (refl, (refl, (refl, (refl, (refl, (refl, tt))))))))))

normalize_forms_example :
    (normalize_kenyan_phone ascii_digit (48 ∷ 55 ∷ rest)
      ≡ normalize_kenyan_phone ascii_digit (55 ∷ rest))
    × (normalize_kenyan_phone ascii_digit (country ++ 55 ∷ rest)
        ≡ normalize_kenyan_phone ascii_digit (55 ∷ rest))
    × (normalize_kenyan_phone ascii_digit (43 ∷ country ++ 55 ∷ rest)
        ≡ normalize_kenyan_phone ascii_digit (55 ∷ rest))
normalize_forms_example = normalize_forms ascii_digit 55 rest local
