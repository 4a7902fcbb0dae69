-- ===== src/Reply/Containers/Laws/Cursor.antt =====
-- reply.h, `parse_scan_reply`: SCAN cursors.
use qbm_redis.Base.{
  ℕ, ◌≤◌, ◌<◌, ◌≡◌, refl, sym, ◌∙◌, ap, false, [], ◌∷◌, ◌++◌, append-nil, some, Bytes, codes, arith,
  ◌≢◌, All,
}
use qbm_redis.Base.Int.{pos, max_int64}
use qbm_redis.Decimal.{value, out_of_range, show_nat, to_string, stoll, signed_digits, digits_value}
use qbm_redis.Decimal.RoundTrip.{
  IsDigit, stoll-to_string, show_nat-digits, show_nat-ne-nil, stoll_of_digits, digits_value-show,
}
use qbm_redis.Outcome.{proto_error, Outcome, ok, throw, ◌>>=◌}
use qbm_redis.Reply.{RedisReply, reply, null_array, no_slot, slot, reply_string}
use qbm_redis.Reply.Scalars.{parse_string}
use qbm_redis.Reply.Containers.{parse_scan, cursor_of}
use qbm_redis.Reply.Containers.Laws.Nested.{array_reply}

-- A bulk string reply.
abbrev pub string_reply : Bytes → RedisReply
string_reply s = reply reply_string (pos 0) (some s) (null_array 0)

-- The reply to a SCAN: the cursor as a text, and the elements.
abbrev pub scan_reply : ℕ → RedisReply → RedisReply
scan_reply cursor items = array_reply (slot (string_reply (show_nat cursor)) (slot items no_slot))

too_great :
    (s : Bytes) (n : ℕ)
    → All IsDigit s
    → s ≢ []
    → digits_value 0 s ≡ n
    → max_int64 < n
    → signed_digits false s ≡ out_of_range
unfolding signed_digits
too_great [] n h e v lt = absurd (e refl)
too_great (c ∷ s) n (d, h) e v lt = ground arith

-- A cursor above the range of a `long long` is `out_of_range` for `std::stoll`.
pub stoll_too_great : (n : ℕ) → max_int64 < n → stoll (show_nat n) ≡ out_of_range
stoll_too_great n h =
    ap stoll (sym (append-nil (show_nat n)))
    ∙ stoll_of_digits (show_nat n) [] (show_nat-digits n) (show_nat-ne-nil n)
    ∙ ap (signed_digits false) (append-nil (show_nat n))
    ∙ too_great (show_nat n) n (show_nat-digits n) (show_nat-ne-nil n) (digits_value-show n) h

stoll_show : (n : ℕ) → n ≤ max_int64 → stoll (show_nat n) ≡ value (pos n)
stoll_show n h =
    ap stoll (sym (append-nil (show_nat n))) ∙ unfold to_string in stoll-to_string (pos n) [] h tt

module _ {Out : Type 0} (to_output : RedisReply → Outcome Out) where
  -- A cursor in the range of a `long long` comes back as it was sent, with the items of the second
  -- element, or with the exception of reading these.
  pub parse_scan-cursor :
      (n : ℕ) (items : RedisReply)
      → n ≤ max_int64
      → parse_scan to_output (scan_reply n items)
        ≡ (to_output items >>= λ out. ok (record { cursor = n; items = out }))
  unfolding parse_scan parse_string
  parse_scan-cursor n items h = rw (stoll_show n h, cursor_of)

  -- A cursor above the range of a `long long` is refused, whatever the items are. `scan::cursor` has 64
  -- bits, and a server may send such a cursor.
  pub parse_scan_large_cursor :
      (n : ℕ) (items : RedisReply)
      → max_int64 < n
      → parse_scan to_output (scan_reply n items)
        ≡ throw (proto_error (codes "Invalid cursor reply: " ++ show_nat n))
  unfolding parse_scan parse_string
  parse_scan_large_cursor n items h = rw (stoll_too_great n h, cursor_of)
