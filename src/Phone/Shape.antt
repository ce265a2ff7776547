-- ===== src/Phone/Shape.antt =====
-- What a normalised number looks like, and that normalising it again changes nothing.
use lynxpay.Prelude.{
  ℕ, Bool, true, ◌&&◌, ◌||◌, ◌≡◌, refl, ap, subst, guarded_some, some, List, [], ◌∷◌, All, length,
  select, arith, ◌==◌, Bool-cases, inl, inr,
}
use lynxpay.Phone.{kept, removed, drop_plus, add_country, kenyan_mobile, normalize_kenyan_phone}

-- Every character is one that the normaliser keeps.
abbrev pub IsClean : List ℕ → Type 0
IsClean = All (λ c. kept c ≡ true)

select-IsClean : (xs : List ℕ) → IsClean (select kept xs)
select-IsClean [] = tt
select-IsClean (x ∷ xs) = elim (Bool-cases (kept x)) [
  | inl y ↦ rw y (y, select-IsClean xs)
  | inr n ↦ rw n (select-IsClean xs)
]

pub select-of_IsClean : (xs : List ℕ) → IsClean xs → select kept xs ≡ xs
select-of_IsClean [] h = refl
select-of_IsClean (x ∷ xs) h = rw (h.0) (ap (λ r. x ∷ r) (select-of_IsClean xs h.1))

drop_plus-IsClean : (xs : List ℕ) → IsClean xs → IsClean (drop_plus xs)
unfolding drop_plus
drop_plus-IsClean [] h = tt
drop_plus-IsClean (x ∷ xs) h = elim (Bool-cases (x == b'+')) [ inl y ↦ rw y h.1 | inr n ↦ rw n h ]

add_country-IsClean : (xs : List ℕ) → IsClean xs → IsClean (add_country xs)
unfolding add_country removed
add_country-IsClean [] h = tt
add_country-IsClean (x ∷ xs) h = elim (Bool-cases (x == b'0')) [
  | inl y ↦ rw y (refl, (refl, (refl, h.1)))
  | inr n ↦ elim (Bool-cases (length (x ∷ xs) == 9 && (x == b'7' || x == b'1'))) [
    | inl y ↦ rw (n, y) (refl, (refl, (refl, h)))
    | inr m ↦ rw (n, m) h
  ]
]

-- A valid number begins with 254 and has twelve characters, so neither prefix rule applies.
drop_plus-kenyan_mobile :
    (d : ℕ → Bool) (xs : List ℕ) → kenyan_mobile d xs ≡ true → drop_plus xs ≡ xs
unfolding drop_plus kenyan_mobile
drop_plus-kenyan_mobile d (a ∷ b ∷ c ∷ e ∷ xs) h = ground arith
drop_plus-kenyan_mobile d _ h = ground arith

add_country-kenyan_mobile :
    (d : ℕ → Bool) (xs : List ℕ) → kenyan_mobile d xs ≡ true → add_country xs ≡ xs
unfolding add_country kenyan_mobile
add_country-kenyan_mobile d (a ∷ b ∷ c ∷ e ∷ xs) h = ground arith
add_country-kenyan_mobile d _ h = ground arith

length-kenyan_mobile : (d : ℕ → Bool) (xs : List ℕ) → kenyan_mobile d xs ≡ true → length xs ≡ 12
unfolding kenyan_mobile
length-kenyan_mobile d (a ∷ b ∷ c ∷ e ∷ xs) h = ground arith
length-kenyan_mobile d _ h = ground arith

normalize_cases :
    (d : ℕ → Bool) (value : List ℕ) {p : List ℕ}
    → normalize_kenyan_phone d value ≡ some p
    → IsClean p × (kenyan_mobile d p ≡ true)
unfolding normalize_kenyan_phone
normalize_cases d value {p} h =
    let phone : List ℕ = add_country (drop_plus (select kept value)) in
    let (valid, same) = guarded_some (kenyan_mobile d phone) phone h in
    (
      subst IsClean same (add_country-IsClean _ (drop_plus-IsClean _ (select-IsClean value))),
      subst (λ q. kenyan_mobile d q ≡ true) same valid,
    )

normalize-normal :
    (d : ℕ → Bool) (p : List ℕ)
    → IsClean p
    → kenyan_mobile d p ≡ true
    → normalize_kenyan_phone d p ≡ some p
unfolding normalize_kenyan_phone
normalize-normal d p clean valid = rw (
  select-of_IsClean p clean,
  drop_plus-kenyan_mobile d p valid,
  add_country-kenyan_mobile d p valid,
  valid,
)

-- A normalised number is valid, has twelve characters, and is its own normal form.
pub normalize_idem :
    (d : ℕ → Bool) (value : List ℕ) {p : List ℕ}
    → normalize_kenyan_phone d value ≡ some p
    → (kenyan_mobile d p ≡ true) × (length p ≡ 12) × (normalize_kenyan_phone d p ≡ some p)
normalize_idem d value {p} h =
    let (clean, valid) = normalize_cases d value h in
    (valid, length-kenyan_mobile d p valid, normalize-normal d p clean valid)
