-- ===== src/Model/Table.antt =====
-- The table of payments under a write of one row.
use lynxpay.Prelude.{
  Bool, ◌≡◌, some, List, first, update, ◌==◌, Pairs, IsKeyedBy, Pairs-refl, write-Pairs,
}
use lynxpay.Model.Payments.{Payment}

-- The primary key: no two rows have the same.
abbrev pub IsKeyed : List Payment → Type 0
IsKeyed = IsKeyedBy (λ p. p.id)

-- Row by row, the table before and after.
abbrev pub Rows : (Payment → Payment → Type 0) → List Payment → List Payment → Type 0
Rows = Pairs

module _ (R : Payment → Payment → Type 0) (same : (p : Payment) → R p p) where
  pub Rows-refl : (ps : List Payment) → Rows R ps ps
  Rows-refl = Pairs-refl R same

  -- The row that a query found is written: that row moves by `R`, the others stay.
  pub write-Rows :
      (test : Payment → Bool) (p p' : Payment) (ps : List Payment)
      → IsKeyed ps
      → first test ps ≡ some p
      → p'.id ≡ p.id
      → R p p'
      → Rows R ps (update (λ row. row.id == p'.id) (λ row. p') ps)
  write-Rows = write-Pairs R same (λ p. p.id)
