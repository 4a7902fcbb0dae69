-- ===== src/Reply/Streams/Laws.antt =====
-- reply.cpp, `parse<stream_id>`: the reading of stream ids.
pub mod Entries
use qbm_redis.Base.{
  ℕ, zero, suc, ◌≤◌, ◌<◌, ◌≡◌, ◌≢◌, refl, sym, ◌∙◌, ap, Bool, true, false, List, [], ◌∷◌, ◌++◌,
  append-nil, append_assoc, Option, none, some, Bytes, codes, arith, All, ◌==◌,
}
use qbm_redis.Base.Int.{ℤ, pos, negsuc, max_int64, InInt64}
use qbm_redis.Decimal.{Numeric, value, invalid_argument, show_nat, to_string, stoll, is_digit}
use qbm_redis.Decimal.RoundTrip.{IsDigit, stoll-to_string, show_nat-digits, show_nat-ne-nil}
use qbm_redis.Types.{StreamId}
use qbm_redis.Types.Ids.{id_text}
use qbm_redis.Outcome.{Exception, proto_error, Outcome, ok, throw, fault, ◌>>=◌}
use qbm_redis.Reply.{
  RedisReply, reply, Elements, null_array, array, Slots, no_slot, null_slot, slot, reply_string,
  reply_array,
}
use qbm_redis.Reply.Containers.Laws.Nested.{array_reply}
use qbm_redis.Reply.Containers.Laws.Cursor.{string_reply}
use qbm_redis.Reply.Streams.{
  split_dash, id_parts, id_of, parse_stream_id, parse_map_stream_entry_list, stream_loop, bad_id,
}

not_dash : (c : ℕ) → IsDigit c → (c == b'-') ≡ false
not_dash c d = ground arith

split_digits : (s t : Bytes) → All IsDigit s → split_dash (s ++ b'-' ∷ t) ≡ some (s, t)
unfolding split_dash
split_digits [] t h = refl
split_digits (c ∷ s) t (d, h) = rw (not_dash c d, split_digits s t h)

stoll_back : (z : ℤ) → InInt64 z → stoll (to_string z) ≡ value z
stoll_back z h = ap stoll (sym (append-nil (to_string z))) ∙ stoll-to_string z [] h tt

id_parts-values :
    (s before behind : Bytes) (t n : ℤ)
    → stoll before ≡ value t
    → stoll behind ≡ value n
    → id_parts s before behind ≡ ok (record { timestamp = t; sequence = n })
unfolding id_parts
id_parts-values s before behind t n p q = rw (p, q)

id_parts_invalid :
    (s before behind : Bytes)
    → stoll before ≡ invalid_argument
    → id_parts s before behind ≡ throw (proto_error (codes "Invalid stream ID: " ++ s))
unfolding id_parts
id_parts_invalid s before behind p = rw p

id_of_text :
    (before behind : Bytes) (t n : ℤ)
    → before ≢ []
    → All IsDigit before
    → stoll before ≡ value t
    → stoll behind ≡ value n
    → id_of (before ++ b'-' ∷ behind) ≡ ok (record { timestamp = t; sequence = n })
unfolding id_of
id_of_text [] behind t n e h p q = absurd (e refl)
id_of_text (c ∷ s) behind t n e h p q =
    rw (split_digits (c ∷ s) behind h) (id_parts-values _ (c ∷ s) behind t n p q)

-- A stream id whose parts fit a `long long` is read back from the text that `to_string` writes, if its
-- timestamp is not negative.
pub parse_stream_id-id_text :
    (t : ℕ) (n : ℤ)
    → t ≤ max_int64
    → InInt64 n
    → parse_stream_id (string_reply (id_text (record { timestamp = pos t; sequence = n })))
      ≡ ok (record { timestamp = pos t; sequence = n })
unfolding parse_stream_id id_text
parse_stream_id-id_text t n ht hn =
    unfold to_string in
    id_of_text (show_nat t) (to_string n) (pos t) n (show_nat-ne-nil t) (show_nat-digits t)
      (stoll_back (pos t) ht) (stoll_back n hn)

-- With a negative timestamp the text has its first dash at the front, and is refused.
pub parse_stream_id_negative :
    (t : ℕ) (n : ℤ)
    → parse_stream_id (string_reply (id_text (record { timestamp = negsuc t; sequence = n })))
      ≡ throw (
          proto_error (
            codes "Invalid stream ID: " ++ id_text (record { timestamp = negsuc t; sequence = n })))
unfolding parse_stream_id id_text to_string
parse_stream_id_negative t n = id_parts_invalid _ [] _ (unfold stoll in refl)
