-- ===== src/Phone.antt =====
-- `normalize_kenyan_phone` of app/schemas.py, on the code points of the text.
pub mod Shape
pub mod Forms
use lynxpay.Prelude.{
  ℕ, Bool, true, false, not, ◌&&◌, ◌||◌, Option, none, some, List, [], ◌∷◌, ◌++◌, length, select,
  leb, ◌==◌, if◌then◌else◌,
}

-- `\s` on Python texts.
is_space : ℕ → Bool
is_space c =
    (leb 9 c && leb c 13)
    || (leb 28 c && leb c 32)
    || c == 0x85
    || c == 0xa0
    || c == 0x1680
    || (leb 0x2000 c && leb c 0x200a)
    || c == 0x2028
    || c == 0x2029
    || c == 0x202f
    || c == 0x205f
    || c == 0x3000

-- The characters that `[\s()-]` removes; `strip` removes some of them first.
unfoldable pub removed : ℕ → Bool
unfolding is_space
removed c = is_space c || c == b'(' || c == b')' || c == b'-'

abbrev kept : ℕ → Bool
kept c = not (removed c)

-- `if phone.startswith("+"): phone = phone[1:]`
drop_plus : List ℕ → List ℕ
drop_plus [] = []
drop_plus (c ∷ rest) = if c == b'+' then rest else c ∷ rest

abbrev pub country : List ℕ
country = b'2' ∷ b'5' ∷ b'4' ∷ []

-- A leading 0 gives way to 254; nine characters from 7 or 1 on get 254 in front.
add_country : List ℕ → List ℕ
add_country [] = []
add_country (c ∷ rest) =
    if c == b'0'
    then country ++ rest
    else if length (c ∷ rest) == 9 && (c == b'7' || c == b'1')
    then country ++ c ∷ rest
    else c ∷ rest

module _ (is_decimal : ℕ → Bool) where
  all_decimal : List ℕ → Bool
  all_decimal [] = true
  all_decimal (c ∷ cs) = is_decimal c && all_decimal cs

  -- `KENYAN_MOBILE_RE.fullmatch`
  pub kenyan_mobile : List ℕ → Bool
  unfolding all_decimal
  kenyan_mobile (a ∷ b ∷ c ∷ d ∷ rest) =
      a == b'2'
      && b == b'5'
      && c == b'4'
      && (d == b'7' || d == b'1')
      && length rest == 8
      && all_decimal rest
  kenyan_mobile _ = false

  -- `none` where the source raises `ValueError`.
  unfoldable pub normalize_kenyan_phone : List ℕ → Option (List ℕ)
  unfolding removed drop_plus add_country kenyan_mobile
  normalize_kenyan_phone value =
      let phone = add_country (drop_plus (select kept value)) in
      if kenyan_mobile phone then some phone else none
