-- ===== src/Decimal/Extract/Bounds.antt =====
-- The ranges of the numbers that the conversions of the C++ standard library give.
use qbm_redis.Base.{Bool, true, false, [], ◌∷◌, Option, none, some, Bytes, arith, if◌then◌else◌}
use qbm_redis.Base.Int.{ℤ, pos, negsuc, InInt64}
use qbm_redis.Decimal.{
  Numeric, value, invalid_argument, out_of_range, skip_space, signed_digits, read_sign, stoll,
}
use qbm_redis.Decimal.Extract.{
  InInt, in_int, unsigned_part, signed_part, extract_integer, extract_int, stoi,
}

-- What holds of the value of a conversion, and of an extraction.
abbrev pub OfValue : {A : Type 0} → (A → Type 0) → Numeric A → Type 0
OfValue P (value a) = P a
OfValue P _ = Unit

abbrev pub OfExtracted : (ℤ → Type 0) → Option (ℤ × Bytes) → Type 0
OfExtracted P none = Unit
OfExtracted P (some (n, t)) = P n

signed_digits-InInt64 : (minus : Bool) (s : Bytes) → OfValue InInt64 (signed_digits minus s)
unfolding signed_digits
signed_digits-InInt64 minus [] = tt
signed_digits-InInt64 minus (c ∷ s) = ground arith

read_sign-InInt64 : (s : Bytes) → OfValue InInt64 (read_sign s)
unfolding read_sign
read_sign-InInt64 [] = tt
read_sign-InInt64 (c ∷ s) = ground (
  arith,
  signed_digits-InInt64 true s,
  signed_digits-InInt64 false s,
  signed_digits-InInt64 false (c ∷ s),
)

-- `std::stoll` gives a `long long`.
pub stoll-InInt64 : (s : Bytes) → OfValue InInt64 (stoll s)
unfolding stoll
stoll-InInt64 s = read_sign-InInt64 (skip_space s)

unsigned_part-InInt64 : (minus : Bool) (s : Bytes) → OfExtracted InInt64 (unsigned_part minus s)
unfolding unsigned_part
unsigned_part-InInt64 minus s = ground (arith, signed_digits-InInt64 minus s)

signed_part-InInt64 : (s : Bytes) → OfExtracted InInt64 (signed_part s)
unfolding signed_part
signed_part-InInt64 [] = tt
signed_part-InInt64 (c ∷ s) = ground (
  arith,
  unsigned_part-InInt64 true s,
  unsigned_part-InInt64 false s,
  unsigned_part-InInt64 false (c ∷ s),
)

-- `>>` into a `long long` and into an `int`, and `std::stoi`.
pub extract_integer-InInt64 : (s : Bytes) → OfExtracted InInt64 (extract_integer s)
unfolding extract_integer
extract_integer-InInt64 s = signed_part-InInt64 (skip_space s)

int_or_none-InInt :
    (o : Option (ℤ × Bytes))
    → OfExtracted InInt
        (elim o [ none ↦ none | some (n, t) ↦ if in_int n then some (n, t) else none ])
int_or_none-InInt none = tt
int_or_none-InInt (some (pos n, t)) = ground arith
int_or_none-InInt (some (negsuc n, t)) = ground arith

pub extract_int-InInt : (s : Bytes) → OfExtracted InInt (extract_int s)
unfolding extract_int
extract_int-InInt s = int_or_none-InInt (extract_integer s)

int_or_range-InInt :
    (o : Numeric ℤ)
    → OfValue InInt (elim o [
      | value n ↦ if in_int n then value n else out_of_range
      | invalid_argument ↦ invalid_argument
      | out_of_range ↦ out_of_range
    ])
int_or_range-InInt (value (pos n)) = ground arith
int_or_range-InInt (value (negsuc n)) = ground arith
int_or_range-InInt invalid_argument = tt
int_or_range-InInt out_of_range = tt

pub stoi-InInt : (s : Bytes) → OfValue InInt (stoi s)
unfolding stoi
stoi-InInt s = int_or_range-InInt (stoll s)
