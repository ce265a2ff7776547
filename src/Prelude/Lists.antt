-- ===== src/Prelude/Lists.antt =====
-- Lists of rows: queries by a test, the first row of a query, and writes by a test.
use Prim.Native.Nat.{ℕ, zero, suc, ◌≤◌}
use mathlib.Core.Path.{◌≡◌, sym, subst}
use mathlib.Core.Logic.{inl, inr}
use mathlib.Core.Bool.{Bool, true, false, ◌&&◌, ◌||◌}
use mathlib.Core.Option.{Option, none, some}
use mathlib.Core.List.{List, [], ◌∷◌}
use native.Mathlib.Omega.{arith}
use lynxpay.Prelude.Tests.{◌==◌, leb, if◌then◌else◌, if_both, Bool-cases}

-- A predicate that holds at each element.
abbrev pub All {ℓ κ} : {A : Type ℓ} → (A → Type κ) → List A → Type κ
All P [] = Unit
All P (x ∷ xs) = P x × All P xs

pub some_inj {ℓ} : {A : Type ℓ} {a b : A} → some a ≡ some b → a ≡ b
some_inj e = cc

pub none-ne-some {ℓ} : {A : Type ℓ} {a : A} → none ≡ some a → ⊥
none-ne-some e = cc

module _ {ℓ} {A : Type ℓ} where
  abbrev pub length : List A → ℕ
  length [] = 0
  length (x ∷ xs) = suc (length xs)

  abbrev pub take : ℕ → List A → List A
  take zero xs = []
  take (suc n) [] = []
  take (suc n) (x ∷ xs) = x ∷ take n xs

  -- `query.filter(test).first()`
  abbrev pub first : (A → Bool) → List A → Option A
  first test [] = none
  first test (x ∷ xs) = if test x then some x else first test xs

  -- The first row of a query in the opposite order, oldest first.
  abbrev pub earliest : (A → Bool) → List A → Option A
  earliest test [] = none
  earliest test (x ∷ xs) = elim (earliest test xs) [
    | some y ↦ some y
    | none ↦ if test x then some x else none
  ]

  -- `query.filter(test).all()`
  abbrev pub select : (A → Bool) → List A → List A
  select test [] = []
  select test (x ∷ xs) = let rest = select test xs in if test x then x ∷ rest else rest

  -- Writes `f` to the rows that pass the test.
  abbrev pub update : (A → Bool) → (A → A) → List A → List A
  update test f [] = []
  update test f (x ∷ xs) = (if test x then f x else x) ∷ update test f xs

  abbrev pub any : (A → Bool) → List A → Bool
  any test [] = false
  any test (x ∷ xs) = test x || any test xs

  pub first_sound : (test : A → Bool) (xs : List A) (x : A) → first test xs ≡ some x → test x ≡ true
  first_sound test [] x h = cc
  first_sound test (y ∷ xs) x h = ground (arith, first_sound test xs x)

  -- The row that a query returns has what every row of the table has.
  pub first-All {κ} :
      (P : A → Type κ) (test : A → Bool) (xs : List A) (x : A)
      → All P xs
      → first test xs ≡ some x
      → P x
  first-All P test [] x h e = absurd (none-ne-some e)
  first-All P test (y ∷ xs) x h e = elim (Bool-cases (test y)) [
    | inl hit ↦ subst P (some_inj (rw hit at e)) h.0
    | inr miss ↦ first-All P test xs x h.1 (rw miss at e)
  ]

  -- A query that finds nothing.
  pub first-none :
      (test : A → Bool) (xs : List A) → first test xs ≡ none → All (λ x. test x ≡ false) xs
  first-none test [] h = tt
  first-none test (x ∷ xs) h = elim (Bool-cases (test x)) [
    | inl y ↦ absurd (none-ne-some (sym (rw y at h)))
    | inr n ↦ (n, first-none test xs (rw n at h))
  ]

  -- A query after the row that it found has been written; the query may be narrower by then.
  pub first-update :
      (test narrow same : A → Bool) (x y : A) (xs : List A)
      → ((z : A) → narrow z ≡ true → test z ≡ true)
      → first test xs ≡ some x
      → same x ≡ true
      → narrow y ≡ true
      → first narrow (update same (λ _. y) xs) ≡ some y
  first-update test narrow same x y [] sub found hit new = absurd (none-ne-some found)
  first-update test narrow same x y (z ∷ zs) sub found hit new = elim (Bool-cases (same z)) [
    | inl written ↦ rw (written, new)
    | inr other ↦ elim (Bool-cases (test z)) [
      | inl here ↦
          let e : z ≡ x = some_inj (rw here at found) in absurd (ground (arith, e, other, hit))
      | inr past ↦
          let rest : first test zs ≡ some x = rw past at found in
          elim (Bool-cases (narrow z)) [
            | inl n ↦ absurd (ground (arith, sub z n, past))
            | inr n ↦ rw (other, n) (first-update test narrow same x y zs sub rest hit new)
          ]
    ]
  ]

  pub All-map {κ μ} :
      (P : A → Type κ) (Q : A → Type μ) (xs : List A) → ((x : A) → P x → Q x) → All P xs → All Q xs
  All-map P Q [] f h = tt
  All-map P Q (x ∷ xs) f h = (f x h.0, All-map P Q xs f h.1)

  -- A table after a write to the rows that pass a test.
  pub update-All {κ} :
      (P : A → Type κ) (test : A → Bool) (f : A → A)
      → ((x : A) → test x ≡ true → P (f x))
      → ((x : A) → test x ≡ false → P x)
      → (xs : List A) → All P (update test f xs)
  update-All P test f written kept [] = tt
  update-All P test f written kept (x ∷ xs) = elim (Bool-cases (test x)) [
    | inl hit ↦ rw hit (written x hit, update-All P test f written kept xs)
    | inr miss ↦ rw miss (kept x miss, update-All P test f written kept xs)
  ]

  pub length-take-le : (n : ℕ) (xs : List A) → length (take n xs) ≤ n
  length-take-le zero xs = omega arith
  length-take-le (suc n) [] = omega arith
  length-take-le (suc n) (x ∷ xs) = omega (arith, length-take-le n xs)

-- `==` on lists of numbers.
abbrev pub same_codes : List ℕ → List ℕ → Bool
same_codes [] [] = true
same_codes (x ∷ xs) (y ∷ ys) = x == y && same_codes xs ys
same_codes _ _ = false

-- `==` on optional lists of numbers.
abbrev pub same_phone : Option (List ℕ) → Option (List ℕ) → Bool
same_phone none none = true
same_phone (some a) (some b) = same_codes a b
same_phone _ _ = false

-- `order_by(key.asc())`, stable.
module _ {ℓ} {A : Type ℓ} (key : A → ℕ) where
  abbrev pub insert_by : A → List A → List A
  insert_by x [] = x ∷ []
  insert_by x (y ∷ ys) = if leb (key x) (key y) then x ∷ y ∷ ys else y ∷ insert_by x ys

  abbrev pub sort_by : List A → List A
  sort_by [] = []
  sort_by (x ∷ xs) = insert_by x (sort_by xs)

  pub insert_by-All {κ} :
      (P : A → Type κ) (x : A) (ys : List A) → P x → All P ys → All P (insert_by x ys)
  insert_by-All P x [] h hs = (h, tt)
  insert_by-All P x (y ∷ ys) h hs =
      if_both (All P) (leb (key x) (key y)) (h, hs) (hs.0, insert_by-All P x ys h hs.1)

  pub sort_by-All {κ} : (P : A → Type κ) (xs : List A) → All P xs → All P (sort_by xs)
  sort_by-All P [] h = tt
  sort_by-All P (x ∷ xs) h = insert_by-All P x (sort_by xs) h.0 (sort_by-All P xs h.1)

module _ {ℓ} {A : Type ℓ} where
  pub select-All : (test : A → Bool) (xs : List A) → All (λ x. test x ≡ true) (select test xs)
  select-All test [] = tt
  select-All test (x ∷ xs) = elim (Bool-cases (test x)) [
    | inl hit ↦ rw hit (hit, select-All test xs)
    | inr miss ↦ rw miss (select-All test xs)
  ]

  pub take-All {κ} : (P : A → Type κ) (n : ℕ) (xs : List A) → All P xs → All P (take n xs)
  take-All P zero xs h = tt
  take-All P (suc n) [] h = tt
  take-All P (suc n) (x ∷ xs) h = (h.0, take-All P n xs h.1)

-- Whether a key is in a list of keys.
abbrev pub contains : List ℕ → ℕ → Bool
contains [] k = false
contains (x ∷ xs) k = x == k || contains xs k
