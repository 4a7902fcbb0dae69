-- ===== src/Commands/Streams/Ids.antt =====
-- stream_commands.h, `xadd`: the two overloads read the id of the new entry in two ways.
use qbm_redis.Base.{◌≡◌, [], ◌∷◌, ◌++◌, Option, none, some, Bytes, codes, is_empty, arith}
use qbm_redis.Base.Int.{ℤ}
use qbm_redis.Decimal.{Numeric, value, invalid_argument, out_of_range, stoll}
use qbm_redis.Types.{StreamId}
use qbm_redis.Outcome.{ok, throw, proto_error}
use qbm_redis.Reply.Streams.{
  no_id, two_numbers, bad_id, id_parts, split_dash, id_of, parse_stream_id,
}
use qbm_redis.Reply.Containers.Laws.Cursor.{string_reply}
use qbm_redis.Commands.Streams.{second_part, id_of_parts, lenient_id}

two_numbers-id :
    (s : Bytes) (a b : Numeric ℤ) (id : StreamId) → two_numbers s a b ≡ ok id → id_of_parts a b ≡ id
unfolding two_numbers bad_id id_of_parts second_part
two_numbers-id s (value t) (value n) id h = ground (arith, h)
two_numbers-id s (value t) invalid_argument id h = cc
two_numbers-id s (value t) out_of_range id h = cc
two_numbers-id s invalid_argument b id h = cc
two_numbers-id s out_of_range b id h = cc

split-id :
    (s : Bytes) (o : Option (Bytes × Bytes)) (id : StreamId)
    → elim o [
      | none ↦ throw (proto_error (codes "Invalid stream ID format: " ++ s))
      | some (before, behind) ↦ id_parts s before behind
    ]
      ≡ ok id
    → elim o [ none ↦ no_id | some (before, behind) ↦ id_of_parts (stoll before) (stoll behind) ]
      ≡ id
unfolding id_parts
split-id s none id h = cc
split-id s (some (before, behind)) id h = two_numbers-id s (stoll before) (stoll behind) id h

text-id : (s : Bytes) (id : StreamId) → id_of s ≡ ok id → lenient_id s ≡ id
unfolding id_of lenient_id is_empty split_dash
text-id [] id h = ground (arith, h)
text-id (c ∷ s) id h = split-id (c ∷ s) (split_dash (c ∷ s)) id h

-- Where the overload of xadd with a callback gives an id, the overload that waits gives the same.
pub xadd-agrees :
    (s : Bytes) (id : StreamId) → parse_stream_id (string_reply s) ≡ ok id → lenient_id s ≡ id
unfolding parse_stream_id
xadd-agrees s id h = text-id s id h
