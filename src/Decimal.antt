-- ===== src/Decimal.antt =====
-- Decimal text, as the code uses it of the C++ standard library: `std::to_string` of an integer, and
-- `std::stoll` with the two exceptions that it throws (reply.cpp, reply.h, types.h).
pub mod RoundTrip
pub mod Extract
use qbm_redis.Base.{
  ℕ, zero, suc, ◌+◌, ◌-◌, ◌*◌, ◌/◌, ◌%◌, Bool, true, false, ◌&&◌, ◌||◌, [], ◌∷◌, Bytes, leb, ltb,
  ◌==◌, if◌then◌else◌,
}
use qbm_redis.Base.Int.{ℤ, pos, negsuc, max_int64}

-- What a conversion from text gives: a value, or one of the two exceptions of `std::stoX`.
pub data Numeric {ℓ} (A : Type ℓ) : Type ℓ where
  value : A → Numeric A
  invalid_argument out_of_range : Numeric A

-- The digits of `n` in front of `out`. The first argument is fuel, and `suc n` is enough.
show_digits : ℕ → ℕ → Bytes → Bytes
show_digits zero n out = out
show_digits (suc f) n out =
    let rest = show_digits f (n / 10) ((b'0' + n % 10) ∷ out) in
    if n / 10 == 0 then (b'0' + n % 10) ∷ out else rest

-- `std::to_string` of an unsigned number.
unfoldable pub show_nat : ℕ → Bytes
unfolding show_digits
show_nat n = show_digits (suc n) n []

-- `std::to_string` of a `long long`.
unfoldable pub to_string : ℤ → Bytes
unfolding show_nat
to_string (pos n) = show_nat n
to_string (negsuc n) = b'-' ∷ show_nat (suc n)

abbrev pub is_digit : ℕ → Bool
is_digit c = leb b'0' c && leb c b'9'

-- `isspace` of the C locale.
abbrev pub is_space : ℕ → Bool
is_space c = c == b' ' || leb 9 c && leb c 13

-- The number that the digits at the front spell behind `acc`; what follows them is not looked at.
unfoldable pub digits_value : ℕ → Bytes → ℕ
digits_value acc [] = acc
digits_value acc (c ∷ s) = if is_digit c then digits_value (acc * 10 + (c - b'0')) s else acc

unfoldable pub skip_space : Bytes → Bytes
skip_space [] = []
skip_space (c ∷ s) = if is_space c then skip_space s else c ∷ s

-- The digits behind the sign: none is `invalid_argument`, too great a number `out_of_range`.
unfoldable pub signed_digits : Bool → Bytes → Numeric ℤ
unfolding digits_value
signed_digits minus [] = invalid_argument
signed_digits minus (c ∷ s) =
    let n = digits_value 0 (c ∷ s) in
    if is_digit c
    then (if n == 0
        then value (pos 0)
        else if minus
        then (if leb n (suc max_int64) then value (negsuc (n - 1)) else out_of_range)
        else (if leb n max_int64 then value (pos n) else out_of_range))
    else invalid_argument

unfoldable pub read_sign : Bytes → Numeric ℤ
unfolding signed_digits
read_sign [] = invalid_argument
read_sign (c ∷ s) =
    if c == b'-'
    then signed_digits true s
    else if c == b'+'
    then signed_digits false s
    else signed_digits false (c ∷ s)

-- `std::stoll`: blanks, a sign, digits; the rest of the text is ignored.
unfoldable pub stoll : Bytes → Numeric ℤ
unfolding skip_space read_sign
stoll s = read_sign (skip_space s)
