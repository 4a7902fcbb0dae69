-- ===== src/Decimal/Extract.antt =====
-- `operator>>` of `std::istringstream`, of the C++ standard library: a word, and an integer, from the
-- text that is left; what it leaves behind; `none` where it sets the fail bit.
pub mod Laws
pub mod Bounds
use qbm_redis.Base.{
  ℕ, zero, suc, ◌-◌, ◌≤◌, ◌^◌, Bool, true, false, ◌&&◌, List, [], ◌∷◌, ◌++◌, Option, none, some,
  Bytes, ◌==◌, leb, if◌then◌else◌,
}
use qbm_redis.Base.Int.{ℤ, pos, negsuc}
use qbm_redis.Decimal.{
  Numeric, value, invalid_argument, out_of_range, is_digit, is_space, skip_space, signed_digits,
  stoll,
}

-- The bytes up to the next blank, behind `w`.
unfoldable pub to_blank : Bytes → Bytes → Bytes × Bytes
to_blank w [] = (w, [])
to_blank w (c ∷ s) = elim (is_space c) [ true ↦ (w, c ∷ s) | false ↦ to_blank (w ++ c ∷ []) s ]

unfoldable pub extract_word : Bytes → Option (Bytes × Bytes)
unfolding skip_space to_blank
extract_word s = elim (skip_space s) [ [] ↦ none | c ∷ t ↦ some (to_blank (c ∷ []) t) ]

unfoldable pub drop_digits : Bytes → Bytes
drop_digits [] = []
drop_digits (c ∷ s) = if is_digit c then drop_digits s else c ∷ s

unsigned_part : Bool → Bytes → Option (ℤ × Bytes)
unfolding signed_digits drop_digits
unsigned_part minus s = elim (signed_digits minus s) [
  | value n ↦ some (n, drop_digits s)
  | _ ↦ none
]

signed_part : Bytes → Option (ℤ × Bytes)
unfolding unsigned_part
signed_part [] = none
signed_part (c ∷ s) =
    if c == b'-'
    then unsigned_part true s
    else if c == b'+'
    then unsigned_part false s
    else unsigned_part false (c ∷ s)

-- `>> long long`
unfoldable pub extract_integer : Bytes → Option (ℤ × Bytes)
unfolding skip_space signed_part
extract_integer s = signed_part (skip_space s)

-- The range of an `int`.
abbrev pub max_int : ℕ
max_int = 2 ^ 31 - 1

abbrev pub InInt : ℤ → Type 0
InInt (pos n) = n ≤ max_int
InInt (negsuc n) = n ≤ max_int

abbrev pub in_int : ℤ → Bool
in_int (pos n) = leb n max_int
in_int (negsuc n) = leb n max_int

-- `>> int`
unfoldable pub extract_int : Bytes → Option (ℤ × Bytes)
unfolding extract_integer
extract_int s = elim (extract_integer s) [
  | none ↦ none
  | some (n, t) ↦ if in_int n then some (n, t) else none
]

-- `std::stoi`
unfoldable pub stoi : Bytes → Numeric ℤ
unfolding stoll
stoi s = elim (stoll s) [
  | value n ↦ if in_int n then value n else out_of_range
  | invalid_argument ↦ invalid_argument
  | out_of_range ↦ out_of_range
]
