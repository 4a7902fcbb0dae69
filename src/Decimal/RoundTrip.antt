-- ===== src/Decimal/RoundTrip.antt =====
-- Reading back what `std::to_string` wrote.
use qbm_redis.Base.{
  ℕ, zero, suc, ◌+◌, ◌/◌, ◌%◌, ◌<◌, ◌≤◌, ◌≡◌, ◌≢◌, refl, ap, ◌∙◌, true, false, [], ◌∷◌, ◌++◌, arith,
  Bytes, ◌==◌, inl, inr, Bool-cases, All, append-nil, sym,
}
use qbm_redis.Base.Int.{ℤ, pos, negsuc, InInt64, max_int64}
use qbm_redis.Decimal.{
  value, show_digits, show_nat, to_string, is_digit, digits_value, skip_space, signed_digits,
  read_sign, stoll,
}

abbrev pub IsDigit : ℕ → Type 0
IsDigit c = is_digit c ≡ true

-- The text does not go on with a digit.
abbrev pub NoDigitFirst : Bytes → Type 0
NoDigitFirst [] = Unit
NoDigitFirst (c ∷ s) = is_digit c ≡ false

-- Digits in front of `out` are read as the number before `out` is read.
digits_value-show_digits :
    (f n : ℕ) (out : Bytes) → n < f → digits_value 0 (show_digits f n out) ≡ digits_value n out
unfolding show_digits digits_value
digits_value-show_digits zero n out h = elim h [ ]
digits_value-show_digits (suc f) n out h =
    ground (arith, digits_value-show_digits f (n / 10) ((b'0' + n % 10) ∷ out))

show_digits-append :
    (f n : ℕ) (out : Bytes) (rest : Bytes)
    → show_digits f n (out ++ rest) ≡ show_digits f n out ++ rest
unfolding show_digits
show_digits-append zero n out rest = refl
show_digits-append (suc f) n out rest =
    ground (arith, show_digits-append f (n / 10) ((b'0' + n % 10) ∷ out) rest)

pub digits_value-show_nat :
    (n : ℕ) (rest : Bytes) → digits_value 0 (show_nat n ++ rest) ≡ digits_value n rest
unfolding show_nat
digits_value-show_nat n rest =
    cc (show_digits-append (suc n) n [] rest, digits_value-show_digits (suc n) n rest (omega arith))

IsDigit-of : (n : ℕ) → IsDigit (b'0' + n % 10)
IsDigit-of n = ground arith

show_digits-digits : (f n : ℕ) (out : Bytes) → All IsDigit out → All IsDigit (show_digits f n out)
unfolding show_digits
show_digits-digits zero n out h = h
show_digits-digits (suc f) n out h = elim (Bool-cases (n / 10 == 0)) [
  | inl e ↦ rw e (IsDigit-of n, h)
  | inr e ↦ rw e (show_digits-digits f (n / 10) ((b'0' + n % 10) ∷ out) (IsDigit-of n, h))
]

show_digits-ne-nil : (f n c : ℕ) (out : Bytes) → show_digits f n (c ∷ out) ≢ []
unfolding show_digits
show_digits-ne-nil zero n c out h = cc
show_digits-ne-nil (suc f) n c out h =
    ground (arith, show_digits-ne-nil f (n / 10) (b'0' + n % 10) (c ∷ out))

-- A printed number is one or more digits.
pub show_nat-digits : (n : ℕ) → All IsDigit (show_nat n)
unfolding show_nat
show_nat-digits n = show_digits-digits (suc n) n [] tt

pub show_nat-ne-nil : (n : ℕ) → show_nat n ≢ []
unfolding show_nat show_digits
show_nat-ne-nil n = ground (arith, show_digits-ne-nil n (n / 10) (b'0' + n % 10) [])

pub digits_value-stop : (n : ℕ) (rest : Bytes) → NoDigitFirst rest → digits_value n rest ≡ n
unfolding digits_value
digits_value-stop n [] h = refl
digits_value-stop n (c ∷ s) h = rw h

-- A digit is no blank and no sign.
pub stoll_of_digits :
    (s : Bytes) (rest : Bytes)
    → All IsDigit s
    → s ≢ []
    → stoll (s ++ rest) ≡ signed_digits false (s ++ rest)
unfolding stoll skip_space read_sign
stoll_of_digits [] rest h e = absurd (e refl)
stoll_of_digits (c ∷ s) rest (d, h) e = ground arith

stoll_of_minus : (s : Bytes) → stoll (b'-' ∷ s) ≡ signed_digits true s
unfolding stoll skip_space read_sign
stoll_of_minus s = refl

pub signed_digits_pos :
    (s : Bytes) (n : ℕ)
    → All IsDigit s
    → s ≢ []
    → (rest : Bytes) → digits_value 0 (s ++ rest) ≡ n
    → n ≤ max_int64
    → signed_digits false (s ++ rest) ≡ value (pos n)
unfolding signed_digits
signed_digits_pos [] n h e rest v le = absurd (e refl)
signed_digits_pos (c ∷ s) n (d, h) e rest v le = ground arith

pub signed_digits_neg :
    (s : Bytes) (n : ℕ)
    → All IsDigit s
    → s ≢ []
    → (rest : Bytes) → digits_value 0 (s ++ rest) ≡ suc n
    → n ≤ max_int64
    → signed_digits true (s ++ rest) ≡ value (negsuc n)
unfolding signed_digits
signed_digits_neg [] n h e rest v le = absurd (e refl)
signed_digits_neg (c ∷ s) n (d, h) e rest v le = ground arith

-- `std::stoll` reads back a `long long` that `std::to_string` wrote, also in front of a text that
-- does not begin with a digit.
pub stoll-to_string :
    (z : ℤ) (rest : Bytes) → InInt64 z → NoDigitFirst rest → stoll (to_string z ++ rest) ≡ value z
unfolding to_string
stoll-to_string (pos n) rest h e =
    stoll_of_digits (show_nat n) rest (show_nat-digits n) (show_nat-ne-nil n)
    ∙ signed_digits_pos (show_nat n) n (show_nat-digits n) (show_nat-ne-nil n) rest
        (digits_value-show_nat n rest ∙ digits_value-stop n rest e) h
stoll-to_string (negsuc n) rest h e =
    stoll_of_minus (show_nat (suc n) ++ rest)
    ∙ signed_digits_neg (show_nat (suc n)) n (show_nat-digits (suc n)) (show_nat-ne-nil (suc n))
        rest (digits_value-show_nat (suc n) rest ∙ digits_value-stop (suc n) rest e) h

pub digits_value-show : (n : ℕ) → digits_value 0 (show_nat n) ≡ n
digits_value-show n =
    ap (digits_value 0) (sym (append-nil (show_nat n)))
    ∙ digits_value-show_nat n []
    ∙ unfold digits_value in refl
