-- ===== src/Prelude/Int.antt =====
-- Integers over the native numbers, with the Boolean tests that the models use.
use Prim.Native.Nat.{ℕ}
use mathlib.Core.Bool.{Bool, true, false}
use mathlib.Core.Option.{Option, none, some}
use lynxpay.Prelude.Tests.{◌==◌}

-- `negsuc n` is -(n + 1).
pub data ℤ : Type 0 where
  pos : ℕ → ℤ
  negsuc : ℕ → ℤ

abbrev pub eq_ℤ : ℤ → ℤ → Bool
eq_ℤ (pos a) (pos b) = a == b
eq_ℤ (negsuc a) (negsuc b) = a == b
eq_ℤ _ _ = false

-- `column == value` on an optional integer; SQLAlchemy compares with `None` by IS NULL.
abbrev pub same_ℤ : Option ℤ → Option ℤ → Bool
same_ℤ none none = true
same_ℤ (some a) (some b) = eq_ℤ a b
same_ℤ _ _ = false
