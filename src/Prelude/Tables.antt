-- ===== src/Prelude/Tables.antt =====
-- Tables: lists of rows with a key, before and after a write of one row or of every row that passes
-- a test. Rows keep their places and their keys.
use Prim.Native.Nat.{ℕ}
use mathlib.Core.Path.{◌≡◌, refl, sym, ap, ◌∙◌, subst}
use mathlib.Core.Logic.{◌≢◌, inl, inr}
use mathlib.Core.Bool.{Bool, true, false}
use mathlib.Core.Option.{some}
use mathlib.Core.List.{List, [], ◌∷◌}
use native.Mathlib.Omega.{arith}
use lynxpay.Prelude.Tests.{◌==◌, if◌then◌else◌, if_both, Bool-cases}
use lynxpay.Prelude.Lists.{All, All-map, first, first-All, update, some_inj}

not_same : (a b : ℕ) → (a == b) ≡ false → a ≢ b
not_same a b h e = ground (arith, h, e)

pub same_key : (a b : ℕ) → (a == b) ≡ true → a ≡ b
same_key a b h = ground arith

module _ {ℓ} {A : Type ℓ} where
  -- Row by row, the table before and after.
  abbrev pub Pairs : (A → A → Type 0) → List A → List A → Type 0
  Pairs R [] [] = Unit
  Pairs R (p ∷ ps) (q ∷ qs) = R p q × Pairs R ps qs
  Pairs R [] (q ∷ qs) = ⊥
  Pairs R (p ∷ ps) [] = ⊥

  -- What the rows before give the rows after.
  pub Pairs-All_with :
      (R : A → A → Type 0) (P Q : A → Type 0)
      → ((p q : A) → R p q → P p → Q q)
      → (ps qs : List A) → Pairs R ps qs
      → All P ps
      → All Q qs
  Pairs-All_with R P Q step [] [] m h = tt
  Pairs-All_with R P Q step (p ∷ ps) (q ∷ qs) m h =
      (step p q m.0 h.0, Pairs-All_with R P Q step ps qs m.1 h.1)
  Pairs-All_with R P Q step [] (q ∷ qs) m h = absurd m
  Pairs-All_with R P Q step (p ∷ ps) [] m h = absurd m

  pub Pairs-All :
      (R : A → A → Type 0) (P : A → Type 0)
      → ((p q : A) → R p q → P p → P q)
      → (ps qs : List A) → Pairs R ps qs
      → All P ps
      → All P qs
  Pairs-All R P = Pairs-All_with R P P

  -- The primary key: no two rows have the same.
  abbrev pub IsKeyedBy : (A → ℕ) → List A → Type 0
  IsKeyedBy key [] = Unit
  IsKeyedBy key (p ∷ rows) = All (λ q. key q ≢ key p) rows × IsKeyedBy key rows

  pub Pairs-IsKeyedBy :
      (R : A → A → Type 0) (key : A → ℕ)
      → ((p q : A) → R p q → key q ≡ key p)
      → (ps qs : List A) → Pairs R ps qs
      → IsKeyedBy key ps
      → IsKeyedBy key qs
  Pairs-IsKeyedBy R key kept [] [] m h = tt
  Pairs-IsKeyedBy R key kept (p ∷ ps) (q ∷ qs) m h = (
    Pairs-All R (λ x. key x ≢ key q) (λ x y moved n e. n (sym (kept x y moved) ∙ e)) ps qs m.1
        (All-map (λ x. key x ≢ key p) (λ x. key x ≢ key q) ps (λ x n e. n (e ∙ kept p q m.0)) h.0),
    Pairs-IsKeyedBy R key kept ps qs m.1 h.1,
  )
  Pairs-IsKeyedBy R key kept [] (q ∷ qs) m h = absurd m
  Pairs-IsKeyedBy R key kept (p ∷ ps) [] m h = absurd m

module _ {ℓ} {A : Type ℓ} (R : A → A → Type 0) (same : (p : A) → R p p) where
  pub Pairs-refl : (ps : List A) → Pairs R ps ps
  Pairs-refl [] = tt
  Pairs-refl (p ∷ ps) = (same p, Pairs-refl ps)

  -- Every row that passes the test is written by a function.
  pub update-Pairs :
      (test : A → Bool) (f : A → A)
      → ((p : A) → test p ≡ true → R p (f p))
      → (ps : List A) → Pairs R ps (update test f ps)
  update-Pairs test f moved [] = tt
  update-Pairs test f moved (p ∷ ps) = elim (Bool-cases (test p)) [
    | inl hit ↦ rw hit (moved p hit, update-Pairs test f moved ps)
    | inr miss ↦ rw miss (same p, update-Pairs test f moved ps)
  ]

  module _ (key : A → ℕ) where
    -- No row with the key: nothing is written.
    write_none :
        (p' : A) (ps : List A)
        → All (λ q. key q ≢ key p') ps
        → Pairs R ps (update (λ row. key row == key p') (λ row. p') ps)
    write_none p' [] h = tt
    write_none p' (q ∷ ps) h = (write_skip (key q == key p') refl, write_none p' ps h.1)
      where
        write_skip : (b : Bool) → (key q == key p') ≡ b → R q (if key q == key p' then p' else q)
        write_skip true e = absurd (h.0 (ground (arith, e)))
        write_skip false e = rw e (same q)

    -- The row that a query found is written: that row moves by `R`, the others stay.
    pub write-Pairs :
        (test : A → Bool) (p p' : A) (ps : List A)
        → IsKeyedBy key ps
        → first test ps ≡ some p
        → key p' ≡ key p
        → R p p'
        → Pairs R ps (update (λ row. key row == key p') (λ row. p') ps)
    write-Pairs test p p' [] keyed found kept moved = tt
    write-Pairs test p p' (q ∷ ps) keyed found kept moved = elim (Bool-cases (test q)) [
      | inl hit ↦
          let e : q ≡ p = some_inj (rw hit at found) in
          (
            write_hit e (key q == key p') refl,
            write_none p' ps (
                All-map (λ r. key r ≢ key q) (λ r. key r ≢ key p') ps
                  (λ r n i. n (i ∙ kept ∙ sym (ap key e))) keyed.0),
          )
      | inr miss ↦
          let rest : first test ps ≡ some p = rw miss at found in
          (
            write_miss (first-All (λ r. key r ≢ key q) test ps p keyed.0 rest) (key q == key p')
                refl,
            write-Pairs test p p' ps keyed.1 rest kept moved,
          )
    ]
      where
        write_hit :
            q ≡ p → (b : Bool) → (key q == key p') ≡ b → R q (if key q == key p' then p' else q)
        write_hit e true h = rw h (subst (λ r. R r p') (sym e) moved)
        write_hit e false h = absurd (not_same (key q) (key p') h (ap key e ∙ sym kept))

        write_miss :
            key p ≢ key q
            → (b : Bool) → (key q == key p') ≡ b
            → R q (if key q == key p' then p' else q)
        write_miss n true h = absurd (n (sym (same_key (key q) (key p') h ∙ kept)))
        write_miss n false h = rw h (same q)

-- A second write that the relation does not see.
pub Pairs-update {ℓ} :
    {A : Type ℓ} (R : A → A → Type 0) (test : A → Bool) (f : A → A)
    → ((p q : A) → R p q → R p (f q))
    → (ps qs : List A) → Pairs R ps qs
    → Pairs R ps (update test f qs)
Pairs-update R test f more [] [] h = tt
Pairs-update R test f more (p ∷ ps) (q ∷ qs) h =
    (if_both (R p) (test q) (more p q h.0) h.0, Pairs-update R test f more ps qs h.1)
Pairs-update R test f more [] (q ∷ qs) h = absurd h
Pairs-update R test f more (p ∷ ps) [] h = absurd h
