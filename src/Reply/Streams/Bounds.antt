-- ===== src/Reply/Streams/Bounds.antt =====
-- reply.cpp: what the `parse` functions of streams throw, and the range of the parts of an id.
use qbm_redis.Base.{
  Bool, true, false, not, List, [], ◌∷◌, ◌++◌, Option, none, some, Bytes, arith, is_empty,
  same_bytes, codes, if◌then◌else◌,
}
use qbm_redis.Base.Int.{ℤ, InInt64}
use qbm_redis.Decimal.{Numeric, value, invalid_argument, out_of_range, stoll}
use qbm_redis.Decimal.Extract.Bounds.{OfValue, stoll-InInt64}
use qbm_redis.Types.{StreamId, StreamEntry}
use qbm_redis.Outcome.{proto_error, Outcome, ok, throw, IsCaught}
use qbm_redis.Outcome.Caught.{
  >>=-IsCaught, throw_if-IsCaught, IsSafe, >>=-IsSafe, guard-IsSafe, IsSafe-IsCaught,
}
use qbm_redis.Reply.{RedisReply, element, str_of, is_string, expected}
use qbm_redis.Reply.Scalars.Laws.{parse_string-IsCaught}
use qbm_redis.Reply.Scalars.{parse_string}
use qbm_redis.Reply.Records.{array_of_two}
use qbm_redis.Reply.Records.Laws.{array_of_two-IsCaught}
use qbm_redis.Reply.Containers.Laws.{parse_map-Caught}
use qbm_redis.Reply.Streams.{
  no_id, two_numbers, id_parts, split_dash, id_of, parse_stream_id, parse_fields,
  parse_stream_entry, entry_loop, parse_stream_entry_list,
}

-- Both parts fit a `long long`.
abbrev pub IdFits : StreamId → Type 0
IdFits id = InInt64 id.timestamp × InInt64 id.sequence

two_numbers-IsSafe :
    (s : Bytes) (a b : Numeric ℤ)
    → OfValue InInt64 a
    → OfValue InInt64 b
    → IsSafe IdFits (two_numbers s a b)
unfolding two_numbers IsSafe
two_numbers-IsSafe s (value t) (value n) h k = (h, k)
two_numbers-IsSafe s (value t) invalid_argument h k = tt
two_numbers-IsSafe s (value t) out_of_range h k = tt
two_numbers-IsSafe s invalid_argument b h k = tt
two_numbers-IsSafe s out_of_range b h k = tt

split_id-IsSafe :
    (s : Bytes) (o : Option (Bytes × Bytes))
    → IsSafe IdFits (elim o [
      | none ↦ throw (proto_error (codes "Invalid stream ID format: " ++ s))
      | some (before, behind) ↦ id_parts s before behind
    ])
unfolding IsSafe id_parts
split_id-IsSafe s none = tt
split_id-IsSafe s (some (before, behind)) =
    two_numbers-IsSafe s (stoll before) (stoll behind) (stoll-InInt64 before) (stoll-InInt64 behind)

id_or_empty-IsSafe :
    (b : Bool) (m : Outcome StreamId) → IsSafe IdFits m → IsSafe IdFits (if b then ok no_id else m)
unfolding IsSafe
id_or_empty-IsSafe true m h = omega arith
id_or_empty-IsSafe false m h = h

id_of-IsSafe : (s : Bytes) → IsSafe IdFits (id_of s)
unfolding id_of
id_of-IsSafe s = id_or_empty-IsSafe (is_empty s) _ (split_id-IsSafe s (split_dash s))

text_id-IsSafe : (o : Option Bytes) → IsSafe IdFits (elim o [ none ↦ ok no_id | some s ↦ id_of s ])
text_id-IsSafe none = unfold IsSafe in omega arith
text_id-IsSafe (some s) = id_of-IsSafe s

pub parse_stream_id-IsSafe : (r : RedisReply) → IsSafe IdFits (parse_stream_id r)
unfolding parse_stream_id expected
parse_stream_id-IsSafe r =
    >>=-IsSafe _ _ _ _ (guard-IsSafe (not (is_string r)) (expected "STRING" r) tt)
      (λ _ _. text_id-IsSafe (str_of r))

pub parse_stream_entry-IsCaught : (r : RedisReply) → IsCaught (parse_stream_entry r)
unfolding parse_stream_entry parse_fields
parse_stream_entry-IsCaught r =
    >>=-IsCaught (array_of_two _ _ r) _ (array_of_two-IsCaught _ _ r) (λ p.
      >>=-IsCaught (parse_stream_id p.0) _ (IsSafe-IsCaught IdFits _ (parse_stream_id-IsSafe p.0))
        (λ id.
          >>=-IsCaught (parse_fields p.1) _
            (parse_map-Caught parse_string parse_string parse_string-IsCaught parse_string-IsCaught
              same_bytes p.1)
            (λ fs. tt)))

entry_loop-IsCaught :
    (out : List StreamEntry) (es : List (Option RedisReply)) → IsCaught (entry_loop out es)
unfolding entry_loop
entry_loop-IsCaught out [] = tt
entry_loop-IsCaught out (none ∷ es) = tt
entry_loop-IsCaught out (some r ∷ es) =
    >>=-IsCaught (parse_stream_entry r) _ (parse_stream_entry-IsCaught r)
      (λ e. entry_loop-IsCaught (out ++ e ∷ []) es)

entries-IsCaught :
    (o : Option (List (Option RedisReply)))
    → IsCaught (elim o [ none ↦ ok [] | some es ↦ entry_loop [] es ])
entries-IsCaught none = tt
entries-IsCaught (some es) = entry_loop-IsCaught [] es

pub parse_stream_entry_list-IsCaught : (r : RedisReply) → IsCaught (parse_stream_entry_list r)
unfolding parse_stream_entry_list expected
parse_stream_entry_list-IsCaught r = throw_if-IsCaught _ _ _ tt (entries-IsCaught (element r))
