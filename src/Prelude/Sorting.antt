-- ===== src/Prelude/Sorting.antt =====
-- A page of a sorted query: what it leaves out comes after all that it has.
use Prim.Native.Nat.{ℕ, zero, suc, ◌≤◌}
use mathlib.Core.Path.{◌≡◌, refl, subst, sym, ap}
use mathlib.Core.Logic.{inl, inr, ◌⊎◌, Lift}
use mathlib.Core.Bool.{Bool, true}
use mathlib.Core.Option.{some}
use mathlib.Core.List.{List, [], ◌∷◌}
use native.Mathlib.Omega.{arith}
use lynxpay.Prelude.Tests.{leb, Bool-cases}
use lynxpay.Prelude.Lists.{
  All, any, All-map, length, take, select, insert_by, sort_by, insert_by-All, first, none-ne-some,
  some_inj,
}

-- Where an element stands in a list.
abbrev pub IsIn {ℓ} : {A : Type ℓ} → A → List A → Type ℓ
IsIn x [] = Lift ⊥
IsIn x (y ∷ ys) = (x ≡ y) ⊎ IsIn x ys

-- A row has what every row of the table has.
pub All-at {ℓ κ} : {A : Type ℓ} (P : A → Type κ) (x : A) (xs : List A) → IsIn x xs → All P xs → P x
All-at P x [] i h = absurd i.lower
All-at P x (y ∷ ys) (inl e) h = subst P (sym e) h.0
All-at P x (y ∷ ys) (inr i) h = All-at P x ys i h.1

pub All-of {ℓ κ} :
    {A : Type ℓ} (P : A → Type κ) (xs : List A) → ((x : A) → IsIn x xs → P x) → All P xs
All-of P [] f = tt
All-of P (x ∷ xs) f = (f x (inl refl), All-of P xs (λ y i. f y (inr i)))

-- The row that a query returns is in the table.
pub first-IsIn {ℓ} :
    {A : Type ℓ} (test : A → Bool) (xs : List A) (x : A) → first test xs ≡ some x → IsIn x xs
first-IsIn test [] x e = absurd (none-ne-some e)
first-IsIn test (y ∷ ys) x e = elim (Bool-cases (test y)) [
  | inl hit ↦ inl (sym (some_inj (rw hit at e)))
  | inr miss ↦ inr (first-IsIn test ys x (rw miss at e))
]

-- A row that `any` has seen.
pub any_sound {ℓ} :
    {A : Type ℓ} (test : A → Bool) (xs : List A)
    → any test xs ≡ true
    → (x : A) × IsIn x xs × (test x ≡ true)
any_sound test [] h = absurd (cc)
any_sound test (y ∷ ys) h = elim (Bool-cases (test y)) [
  | inl hit ↦ (y, inl refl, hit)
  | inr miss ↦ let rest = any_sound test ys (rw miss at h) in (rest.0, inr rest.1, rest.2)
]

select-IsIn {ℓ} :
    {A : Type ℓ} (test : A → Bool) (x : A) (xs : List A)
    → IsIn x xs
    → test x ≡ true
    → IsIn x (select test xs)
select-IsIn test x [] i h = i
select-IsIn test x (y ∷ ys) (inl e) h = rw (subst (λ z. test z ≡ true) e h) (inl e)
select-IsIn test x (y ∷ ys) (inr i) h = elim (Bool-cases (test y)) [
  | inl hit ↦ rw hit (inr (select-IsIn test x ys i h))
  | inr miss ↦ rw miss (select-IsIn test x ys i h)
]

module _ {ℓ} {A : Type ℓ} (key : A → ℕ) where
  abbrev IsSorted : List A → Type 0
  IsSorted [] = Unit
  IsSorted (x ∷ xs) = All (λ y. key x ≤ key y) xs × IsSorted xs

  insert_by-IsSorted : (x : A) (ys : List A) → IsSorted ys → IsSorted (insert_by key x ys)
  insert_by-IsSorted x [] h = (tt, tt)
  insert_by-IsSorted x (y ∷ ys) h = elim (Bool-cases (leb (key x) (key y))) [
    | inl le ↦
        let low : key x ≤ key y = ground (arith, le) in
        rw le ((low, All-map _ _ ys (λ z k. omega (arith, low, k)) h.0), h)
    | inr gt ↦
        let low : key y ≤ key x = ground (arith, gt) in
        rw gt (insert_by-All key (λ z. key y ≤ key z) x ys low h.0, insert_by-IsSorted x ys h.1)
  ]

  sort_by-IsSorted : (xs : List A) → IsSorted (sort_by key xs)
  sort_by-IsSorted [] = tt
  sort_by-IsSorted (x ∷ xs) = insert_by-IsSorted x (sort_by key xs) (sort_by-IsSorted xs)

  insert_by_here : (x : A) (ys : List A) → IsIn x (insert_by key x ys)
  insert_by_here x [] = inl refl
  insert_by_here x (y ∷ ys) = elim (Bool-cases (leb (key x) (key y))) [
    | inl le ↦ rw le (inl refl)
    | inr gt ↦ rw gt (inr (insert_by_here x ys))
  ]

  insert_by-IsIn : (x z : A) (ys : List A) → IsIn z ys → IsIn z (insert_by key x ys)
  insert_by-IsIn x z [] i = absurd i.lower
  insert_by-IsIn x z (y ∷ ys) i = elim (Bool-cases (leb (key x) (key y))) [
    | inl le ↦ rw le (inr i)
    | inr gt ↦ rw gt (elim i [ inl e ↦ inl e | inr j ↦ inr (insert_by-IsIn x z ys j) ])
  ]

  sort_by-IsIn : (z : A) (xs : List A) → IsIn z xs → IsIn z (sort_by key xs)
  sort_by-IsIn z [] i = i
  sort_by-IsIn z (x ∷ xs) (inl e) =
      subst (λ w. IsIn w (insert_by key x (sort_by key xs))) (sym e)
        (insert_by_here x (sort_by key xs))
  sort_by-IsIn z (x ∷ xs) (inr i) = insert_by-IsIn x z (sort_by key xs) (sort_by-IsIn z xs i)

  -- Whether a page is full, and has nothing that comes after `z`.
  abbrev pub IsFullBefore : ℕ → A → List A → Type 0
  IsFullBefore n z xs = (length xs ≡ n) × All (λ x. key x ≤ key z) xs

  take-IsIn :
      (n : ℕ) (z : A) (xs : List A)
      → IsSorted xs
      → IsIn z xs
      → IsIn z (take n xs) ⊎ IsFullBefore n z (take n xs)
  take-IsIn zero z xs sorted i = inr (refl, tt)
  take-IsIn (suc n) z [] sorted i = absurd i.lower
  take-IsIn (suc n) z (x ∷ xs) sorted (inl e) = inl (inl e)
  take-IsIn (suc n) z (x ∷ xs) sorted (inr i) = elim (take-IsIn n z xs sorted.1 i) [
    | inl j ↦ inl (inr j)
    | inr full ↦ inr (ap suc full.0, (All-at (λ y. key x ≤ key y) z xs i sorted.0, full.1))
  ]

  -- A row that passes the test is in the page, or the page is full of rows that come no later.
  pub page-IsIn :
      (test : A → Bool) (n : ℕ) (z : A) (xs : List A)
      → IsIn z xs
      → test z ≡ true
      → IsIn z (take n (sort_by key (select test xs)))
        ⊎ IsFullBefore n z (take n (sort_by key (select test xs)))
  page-IsIn test n z xs i h =
      take-IsIn n z (sort_by key (select test xs)) (sort_by-IsSorted (select test xs))
        (sort_by-IsIn z (select test xs) (select-IsIn test z xs i h))
