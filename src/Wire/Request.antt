-- ===== src/Wire/Request.antt =====
-- How a server reads a request of the Redis protocol: `*`, the number of words and a line end, then
-- for each word `$`, its length, a line end, its bytes and a line end. This is the documented format,
-- against which the frames of Wire are judged; it is no code of this repository.
use qbm_redis.Base.{
  ℕ, zero, suc, ◌+◌, ◌-◌, ◌*◌, ◌<◌, ◌≡◌, refl, ◌∙◌, ◌&&◌, List, [], ◌∷◌, ◌++◌, append_assoc, Option,
  none, some, Bytes, length, All, ◌==◌, if◌then◌else◌, ◌>>=◌, arith,
}
use qbm_redis.Decimal.{is_digit, digits_value, show_nat}
use qbm_redis.Decimal.RoundTrip.{IsDigit, show_nat-digits, digits_value-show}
use qbm_redis.Wire.Bulk.{crlf}
use qbm_redis.Wire.Words.{bulk, bulks}

line_end : ℕ → Bytes → Option (ℕ × Bytes)
line_end n [] = none
line_end n (c ∷ s) = if c == 10 then some (n, s) else none

-- A decimal number up to the line end.
read_length : ℕ → Bytes → Option (ℕ × Bytes)
unfolding line_end
read_length n [] = none
read_length n (c ∷ s) =
    if is_digit c
    then read_length (n * 10 + (c - b'0')) s
    else if c == 13
    then line_end n s
    else none

take_exact : ℕ → Bytes → Option (Bytes × Bytes)
take_exact zero s = some ([], s)
take_exact (suc n) [] = none
take_exact (suc n) (c ∷ s) = take_exact n s >>= λ (w, rest). some (c ∷ w, rest)

after_word : Bytes → Bytes → Option (Bytes × Bytes)
after_word w (c ∷ d ∷ s) = if c == 13 && d == 10 then some (w, s) else none
after_word w s = none

read_bulk : Bytes → Option (Bytes × Bytes)
unfolding read_length take_exact after_word
read_bulk [] = none
read_bulk (c ∷ s) =
    if c == b'$'
    then (read_length 0 s >>= λ (n, t). take_exact n t >>= λ (w, u). after_word w u)
    else none

unfoldable pub read_bulks : ℕ → Bytes → Option (List Bytes × Bytes)
unfolding read_bulk
read_bulks zero s = some ([], s)
read_bulks (suc n) s = read_bulk s >>= λ (w, t). read_bulks n t >>= λ (ws, u). some (w ∷ ws, u)

unfoldable pub read_request : Bytes → Option (List Bytes × Bytes)
unfolding read_bulks
read_request [] = none
read_request (c ∷ s) = if c == b'*' then (read_length 0 s >>= λ (n, t). read_bulks n t) else none

read_length-digits :
    (s : Bytes) (n : ℕ) (rest : Bytes)
    → All IsDigit s
    → read_length n (s ++ rest) ≡ read_length (digits_value n s) rest
unfolding read_length digits_value
read_length-digits [] n rest h = refl
read_length-digits (c ∷ s) n rest (d, h) = rw d (read_length-digits s (n * 10 + (c - b'0')) rest h)

read_length-crlf : (n : ℕ) (rest : Bytes) → read_length n (crlf ++ rest) ≡ some (n, rest)
unfolding read_length
read_length-crlf n rest = refl

read_length-show :
    (n : ℕ) (rest : Bytes) → read_length 0 (show_nat n ++ (crlf ++ rest)) ≡ some (n, rest)
read_length-show n rest =
    read_length-digits (show_nat n) 0 (crlf ++ rest) (show_nat-digits n)
    ∙ rw (digits_value-show n) (read_length-crlf n rest)

take_exact-append : (s rest : Bytes) → take_exact (length s) (s ++ rest) ≡ some (s, rest)
unfolding take_exact
take_exact-append [] rest = refl
take_exact-append (c ∷ s) rest = rw (take_exact-append s rest)

read_bulk-bulk : (s rest : Bytes) → read_bulk (bulk s ++ rest) ≡ some (s, rest)
unfolding read_bulk bulk
read_bulk-bulk s rest = simp (append_assoc, read_length-show, take_exact-append)

-- A row of bulk strings is read back, if the reader is told how many there are.
pub read_bulks-bulks :
    (ws : List Bytes) (rest : Bytes) → read_bulks (length ws) (bulks ws ++ rest) ≡ some (ws, rest)
unfolding read_bulks bulks
read_bulks-bulks [] rest = refl
read_bulks-bulks (w ∷ ws) rest = rw (
  append_assoc (bulk w) (bulks ws) rest,
  read_bulk-bulk w (bulks ws ++ rest),
  read_bulks-bulks ws rest,
)

-- A reader that is told of more words than there are waits for the rest.
pub read_bulks-short : (n : ℕ) (ws : List Bytes) → length ws < n → read_bulks n (bulks ws) ≡ none
unfolding read_bulks bulks
read_bulks-short zero ws h = elim h [ ]
read_bulks-short (suc n) [] h = unfold read_bulk in refl
read_bulks-short (suc n) (w ∷ ws) h =
    rw (read_bulk-bulk w (bulks ws), read_bulks-short n ws (omega arith))

pub read_request-header :
    (n : ℕ) (rest : Bytes)
    → read_request (b'*' ∷ (show_nat n ++ (crlf ++ rest))) ≡ read_bulks n rest
unfolding read_request
read_request-header n rest = rw (read_length-show n rest)
