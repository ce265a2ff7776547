-- ===== src/Reversals/Advance.antt =====
-- Operations on the table of reversals that only move rows that exist.
use lynxpay.Reversals.Life.{Moves-refl, Moves}
use lynxpay.Model.{ReversalRequest, Session}
use lynxpay.Prelude.{
  arith, ℕ, suc, Bool, ◌≡◌, ◌≤◌, ◌==◌, sym, refl, subst, some, List, All, first, update, Pairs,
  Pairs-refl, write-Pairs, IsKeyedBy,
}

-- The keys of the table are below the next one.
abbrev pub IsFresh : ℕ → List ReversalRequest → Type 0
IsFresh next = All (λ r. suc r.id ≤ next)

-- The table before and after an operation on rows that exist.
pub record Advances (db db' : Session) : Type 0 where
  pub rows : Pairs Moves db.reversals db'.reversals
  pub next : db.next_id ≤ db'.next_id

pub Advances-same :
    {db db' : Session} → db'.reversals ≡ db.reversals → db.next_id ≤ db'.next_id → Advances db db'
Advances-same {db} {db'} e le = record {
  rows = subst (Pairs Moves db.reversals) (sym e) (Pairs-refl Moves Moves-refl db.reversals);
  next = le;
}

-- The write of the row that a query found.
pub Advances-save :
    {db db' : Session} (test : ReversalRequest → Bool) (r r' : ReversalRequest)
    → IsKeyedBy (λ row. row.id) db.reversals
    → first test db.reversals ≡ some r
    → Moves r r'
    → db'.reversals ≡ update (λ row. row.id == r'.id) (λ row. r') db.reversals
    → db.next_id ≤ db'.next_id
    → Advances db db'
Advances-save {db} {db'} test r r' keyed found moves e le = record {
  rows = subst (Pairs Moves db.reversals) (sym e) (
      write-Pairs Moves Moves-refl (λ row. row.id) test r r' db.reversals keyed found moves.0.0
        moves);
  next = le;
}

pub Advances-refl : (db : Session) → Advances db db
Advances-refl db = Advances-same refl (omega arith)
