-- ===== src/Phone/Forms.antt =====
-- The ways to write one number.
use lynxpay.Prelude.{
  ℕ, Bool, true, ◌||◌, ◌≡◌, refl, sym, ◌∙◌, none, some, List, ◌∷◌, ◌++◌, length, arith, ◌==◌,
  if◌then◌else◌,
}
use lynxpay.Phone.{country, removed, drop_plus, add_country, kenyan_mobile, normalize_kenyan_phone}
use lynxpay.Phone.Shape.{IsClean, select-of_IsClean}

normalize_of :
    (d : ℕ → Bool) (value phone : List ℕ)
    → IsClean value
    → add_country (drop_plus value) ≡ phone
    → normalize_kenyan_phone d value ≡ (if kenyan_mobile d phone then some phone else none)
unfolding normalize_kenyan_phone
normalize_of d value phone clean e = rw (select-of_IsClean value clean, e)

module _ (d : ℕ → Bool) (c : ℕ) (rest : List ℕ) where
  -- The number without its country code: 7 or 1, and eight more characters that are kept.
  abbrev pub IsLocal : Type 0
  IsLocal = ((c == b'7' || c == b'1') ≡ true) × (length rest ≡ 8) × IsClean (c ∷ rest)

  prefix_forms :
      IsLocal
      → (add_country (drop_plus (c ∷ rest)) ≡ country ++ c ∷ rest)
        × (add_country (drop_plus (b'0' ∷ c ∷ rest)) ≡ country ++ c ∷ rest)
        × (add_country (drop_plus (country ++ c ∷ rest)) ≡ country ++ c ∷ rest)
        × (add_country (drop_plus (b'+' ∷ country ++ c ∷ rest)) ≡ country ++ c ∷ rest)
  unfolding drop_plus add_country
  prefix_forms (first, eight, _) = (ground arith, ground arith, ground arith, ground arith)

  -- A local number (7 or 1, and eight more characters that are kept), and the same with 0, 254 or
  -- +254 in front, are normalised alike.
  pub normalize_forms :
      IsLocal
      → (normalize_kenyan_phone d (b'0' ∷ c ∷ rest) ≡ normalize_kenyan_phone d (c ∷ rest))
        × (normalize_kenyan_phone d (country ++ c ∷ rest) ≡ normalize_kenyan_phone d (c ∷ rest))
        × (normalize_kenyan_phone d (b'+' ∷ country ++ c ∷ rest)
            ≡ normalize_kenyan_phone d (c ∷ rest))
  unfolding removed
  normalize_forms l =
      let (local, zero_form, long, plus) = prefix_forms l in
      let short = sym (normalize_of d (c ∷ rest) _ l.2 local) in
      (
        normalize_of d (b'0' ∷ c ∷ rest) _ (refl, l.2) zero_form ∙ short,
        normalize_of d (country ++ c ∷ rest) _ (refl, (refl, (refl, l.2))) long ∙ short,
        normalize_of d (b'+' ∷ country ++ c ∷ rest) _ (refl, (refl, (refl, (refl, l.2)))) plus
            ∙ short,
      )
