-- ===== src/Decimal/Extract/Laws.antt =====
-- Extracting words and integers that were written with a blank in front.
use qbm_redis.Base.{
  ℕ, suc, ◌≡◌, ◌≢◌, refl, sym, ap, ◌∙◌, Bool, true, false, [], ◌∷◌, ◌++◌, append-nil, append_assoc,
  some, Bytes, All, arith,
}
use qbm_redis.Base.Int.{ℤ, pos, negsuc, InInt64}
use qbm_redis.Decimal.{
  value, is_space, skip_space, signed_digits, stoll, show_nat, to_string, digits_value,
}
use qbm_redis.Decimal.RoundTrip.{
  IsDigit, NoDigitFirst, show_nat-digits, show_nat-ne-nil, signed_digits_pos, signed_digits_neg,
  digits_value-show_nat, digits_value-stop, stoll-to_string,
}
use qbm_redis.Decimal.Extract.{
  to_blank, extract_word, drop_digits, unsigned_part, signed_part, extract_integer, extract_int,
  InInt, in_int, stoi,
}

abbrev pub IsGraph : ℕ → Type 0
IsGraph c = is_space c ≡ false

-- One or more bytes, none of them a blank.
abbrev pub IsWord : Bytes → Type 0
IsWord s = (s ≢ []) × All IsGraph s

-- The end of the text, or a blank.
abbrev pub Stops : Bytes → Type 0
Stops [] = Unit
Stops (c ∷ s) = is_space c ≡ true

to_blank-append :
    (w s rest : Bytes) → All IsGraph s → Stops rest → to_blank w (s ++ rest) ≡ (w ++ s, rest)
unfolding to_blank
to_blank-append w [] [] h k = ap (λ v. (v, [])) (sym (append-nil w))
to_blank-append w [] (c ∷ t) h k = rw (k, to_blank) (ap (λ v. (v, c ∷ t)) (sym (append-nil w)))
to_blank-append w (c ∷ s) rest (d, h) k =
    rw (d, to_blank)
      (to_blank-append (w ++ c ∷ []) s rest h k ∙ ap (λ v. (v, rest)) (append_assoc w (c ∷ []) s))

-- A word at the front of the text.
pub extract_word-front :
    (s rest : Bytes) → IsWord s → Stops rest → extract_word (s ++ rest) ≡ some (s, rest)
unfolding extract_word skip_space
extract_word-front [] rest (e, h) k = absurd (e refl)
extract_word-front (c ∷ s) rest (e, (d, h)) k =
    rw (d, extract_word) (ap some (to_blank-append (c ∷ []) s rest h k))

-- A word behind a blank.
pub extract_word-next :
    (s rest : Bytes) → IsWord s → Stops rest → extract_word (b' ' ∷ (s ++ rest)) ≡ some (s, rest)
extract_word-next s rest h k = unfold extract_word skip_space in extract_word-front s rest h k

no_digit : (rest : Bytes) → Stops rest → NoDigitFirst rest
no_digit [] k = tt
no_digit (c ∷ s) k = ground arith

drop_digits-append : (s rest : Bytes) → All IsDigit s → Stops rest → drop_digits (s ++ rest) ≡ rest
unfolding drop_digits
drop_digits-append [] [] h k = refl
drop_digits-append [] (c ∷ t) h k = rw (no_digit (c ∷ t) k)
drop_digits-append (c ∷ s) rest (d, h) k = rw d (drop_digits-append s rest h k)

signed_part-digits :
    (s rest : Bytes)
    → All IsDigit s
    → s ≢ []
    → signed_part (skip_space (s ++ rest)) ≡ unsigned_part false (s ++ rest)
unfolding signed_part skip_space
signed_part-digits [] rest h e = absurd (e refl)
signed_part-digits (c ∷ s) rest (d, h) e = ground arith

unsigned_part-value :
    (minus : Bool) (s rest : Bytes) (z : ℤ)
    → signed_digits minus (s ++ rest) ≡ value z
    → All IsDigit s
    → Stops rest
    → unsigned_part minus (s ++ rest) ≡ some (z, rest)
unfolding unsigned_part
unsigned_part-value minus s rest z p h k = rw (p, unsigned_part, drop_digits-append s rest h k)

value_of : (n : ℕ) (rest : Bytes) → Stops rest → digits_value 0 (show_nat n ++ rest) ≡ n
value_of n rest k = digits_value-show_nat n rest ∙ digits_value-stop n rest (no_digit rest k)

-- A `long long` behind a blank.
pub extract_integer-next :
    (z : ℤ) (rest : Bytes)
    → InInt64 z
    → Stops rest
    → extract_integer (b' ' ∷ (to_string z ++ rest)) ≡ some (z, rest)
unfolding to_string
extract_integer-next (pos n) rest h k =
    unfold extract_integer skip_space in
    signed_part-digits (show_nat n) rest (show_nat-digits n) (show_nat-ne-nil n)
    ∙ unsigned_part-value false (show_nat n) rest (pos n)
        (signed_digits_pos (show_nat n) n (show_nat-digits n) (show_nat-ne-nil n) rest
          (value_of n rest k) h)
        (show_nat-digits n) k
extract_integer-next (negsuc n) rest h k =
    unfold extract_integer skip_space signed_part in
    unsigned_part-value true (show_nat (suc n)) rest (negsuc n)
      (signed_digits_neg (show_nat (suc n)) n (show_nat-digits (suc n)) (show_nat-ne-nil (suc n))
        rest (value_of (suc n) rest k) h)
      (show_nat-digits (suc n)) k

int_fits : (z : ℤ) → InInt z → (in_int z ≡ true) × InInt64 z
int_fits (pos n) h = (ground arith, omega arith)
int_fits (negsuc n) h = (ground arith, omega arith)

-- An `int` behind a blank.
pub extract_int-next :
    (z : ℤ) (rest : Bytes)
    → InInt z
    → Stops rest
    → extract_int (b' ' ∷ (to_string z ++ rest)) ≡ some (z, rest)
unfolding extract_int
extract_int-next z rest h k =
    rw (extract_integer-next z rest (int_fits z h).1 k, extract_int, (int_fits z h).0)

pub stoi-to_string : (z : ℤ) → InInt z → stoi (to_string z) ≡ value z
unfolding stoi
stoi-to_string z h = rw (
  ap stoll (sym (append-nil (to_string z))) ∙ stoll-to_string z [] (int_fits z h).1 tt,
  stoi,
  (int_fits z h).0,
)
