-- ===== src/Reply/Json/Numbers.antt =====
-- reply.cpp, `parse<qb::json>`: texts that are made of digits and dashes.
use qbm_redis.Base.{
  suc, ◌≡◌, refl, ap, true, false, [], ◌∷◌, ◌++◌, Bytes, codes, same_bytes, arith, All,
}
use qbm_redis.Base.Int.{ℤ, pos, negsuc, InInt64}
use qbm_redis.Decimal.{value, show_nat, to_string, stoll}
use qbm_redis.Decimal.RoundTrip.{IsDigit, stoll-to_string, show_nat-digits}
use qbm_redis.Floating.{Floating}
use qbm_redis.Outcome.{ok}
use qbm_redis.Reply.Containers.Laws.Cursor.{string_reply}
use qbm_redis.Reply.Json.{
  integer, JsonText, is_bracketed, is_numeric, has_dot, number_or, plain_json, text_json, json_body,
  parse_json,
}

is_numeric-append :
    (s t : Bytes) → is_numeric s ≡ true → is_numeric t ≡ true → is_numeric (s ++ t) ≡ true
unfolding is_numeric
is_numeric-append [] t h k = k
is_numeric-append (c ∷ s) t h k = ground (arith, is_numeric-append s t)

has_dot-append : (s t : Bytes) → has_dot s ≡ false → has_dot t ≡ false → has_dot (s ++ t) ≡ false
unfolding has_dot
has_dot-append [] t h k = k
has_dot-append (c ∷ s) t h k = ground (arith, has_dot-append s t)

digits-numeric : (s : Bytes) → All IsDigit s → is_numeric s ≡ true
unfolding is_numeric
digits-numeric [] h = refl
digits-numeric (c ∷ s) (d, h) = ground (arith, d, digits-numeric s h)

digits-no_dot : (s : Bytes) → All IsDigit s → has_dot s ≡ false
unfolding has_dot
digits-no_dot [] h = refl
digits-no_dot (c ∷ s) (d, h) = ground (arith, d, digits-no_dot s h)

to_string-numeric : (n : ℤ) → is_numeric (to_string n) ≡ true
unfolding to_string is_numeric
to_string-numeric (pos n) = digits-numeric (show_nat n) (show_nat-digits n)
to_string-numeric (negsuc n) = digits-numeric (show_nat (suc n)) (show_nat-digits (suc n))

to_string-no_dot : (n : ℤ) → has_dot (to_string n) ≡ false
unfolding to_string has_dot
to_string-no_dot (pos n) = digits-no_dot (show_nat n) (show_nat-digits n)
to_string-no_dot (negsuc n) = digits-no_dot (show_nat (suc n)) (show_nat-digits (suc n))

numeric-not_bracketed : (s : Bytes) → is_numeric s ≡ true → is_bracketed s ≡ false
unfolding is_numeric is_bracketed
numeric-not_bracketed [] h = refl
numeric-not_bracketed (c ∷ []) h = refl
numeric-not_bracketed (c ∷ d ∷ s) h = ground (arith, h)

numeric-not_true : (s : Bytes) → is_numeric s ≡ true → same_bytes s (codes "true") ≡ false
unfolding is_numeric same_bytes codes
numeric-not_true [] h = refl
numeric-not_true (c ∷ s) h = ground (arith, h)

numeric-not_false : (s : Bytes) → is_numeric s ≡ true → same_bytes s (codes "false") ≡ false
unfolding is_numeric same_bytes codes
numeric-not_false [] h = refl
numeric-not_false (c ∷ s) h = ground (arith, h)

module _ (D : Type 0) ⦃F : Floating D⦄ ⦃J : JsonText D⦄ where
  text_json-number :
      (s : Bytes) (n : ℤ)
      → is_numeric s ≡ true
      → has_dot s ≡ false
      → stoll s ≡ value n
      → text_json {D = D} s ≡ integer n
  unfolding text_json plain_json number_or
  text_json-number s n h d p =
      rw (numeric-not_bracketed s h, numeric-not_true s h, numeric-not_false s h, h, d, p)

  -- A text that begins with a number in the range of a long long, followed by a dash and by any digits
  -- and dashes, is read as the number; what follows is lost.
  pub parse_json-dashes :
      (n : ℤ) (rest : Bytes)
      → InInt64 n
      → is_numeric rest ≡ true
      → has_dot rest ≡ false
      → parse_json {D = D} (string_reply (to_string n ++ b'-' ∷ rest)) ≡ ok (integer n)
  unfolding parse_json json_body
  parse_json-dashes n rest h k d =
      ap (λ v. ok v)
        (text_json-number (to_string n ++ b'-' ∷ rest) n
          (is_numeric-append (to_string n) (b'-' ∷ rest) (to_string-numeric n)
            (unfold is_numeric in k))
          (has_dot-append (to_string n) (b'-' ∷ rest) (to_string-no_dot n) (unfold has_dot in d))
          (stoll-to_string n (b'-' ∷ rest) h refl))
