-- ===== src/Reply/Streams.antt =====
-- reply.cpp: stream ids, stream entries, and the replies of XRANGE and XREAD.
pub mod Laws
pub mod Bounds
use qbm_redis.Base.{
  ℕ, zero, suc, ◌+◌, ◌%◌, Bool, true, false, not, ◌&&◌, ◌||◌, List, [], ◌∷◌, ◌++◌, Option, none,
  some, String, Bytes, codes, length, ◌==◌, is_empty, same_bytes, if◌then◌else◌,
}
use qbm_redis.Base.Int.{ℤ, pos}
use qbm_redis.Decimal.{Numeric, value, stoll}
use qbm_redis.Types.{StreamId, StreamEntry}
use qbm_redis.Outcome.{Exception, proto_error, Outcome, ok, throw, fault, ◌>>=◌, ◌>>◌, throw_if}
use qbm_redis.Reply.{RedisReply, reply, elements, element, str_of, is_array, is_string, expected}
use qbm_redis.Reply.Scalars.{parse_string}
use qbm_redis.Reply.Containers.{parse_map, map_insert}
use qbm_redis.Reply.Records.{array_of_two}

-- `find('-')`: the text before and behind the first dash
unfoldable pub split_dash : Bytes → Option (Bytes × Bytes)
split_dash [] = none
split_dash (c ∷ s) =
    if c == b'-'
    then some ([], s)
    else elim (split_dash s) [ none ↦ none | some (a, b) ↦ some (c ∷ a, b) ]

abbrev pub no_id : StreamId
no_id = record { timestamp = pos 0; sequence = pos 0 }

unfoldable pub bad_id : Bytes → Outcome StreamId
bad_id id_str = throw (proto_error (codes "Invalid stream ID: " ++ id_str))

unfoldable pub two_numbers : Bytes → Numeric ℤ → Numeric ℤ → Outcome StreamId
unfolding bad_id
two_numbers id_str (value t) (value n) = ok (record { timestamp = t; sequence = n })
two_numbers id_str _ _ = bad_id id_str

unfoldable pub id_parts : Bytes → Bytes → Bytes → Outcome StreamId
unfolding two_numbers
id_parts id_str before behind = two_numbers id_str (stoll before) (stoll behind)

-- A text that is not empty must be two numbers around a dash.
unfoldable pub id_of : Bytes → Outcome StreamId
unfolding split_dash id_parts is_empty
id_of id_str = if is_empty id_str then ok no_id else elim (split_dash id_str) [
  | none ↦ throw (proto_error (codes "Invalid stream ID format: " ++ id_str))
  | some (before, behind) ↦ id_parts id_str before behind
]

unfoldable pub parse_stream_id : RedisReply → Outcome StreamId
unfolding is_string id_of
parse_stream_id r = do
  throw_if (not (is_string r)) (expected "STRING" r)
  elim (str_of r) [ none ↦ ok no_id | some s ↦ id_of s ]

-- `parse<qb::unordered_map<std::string, std::string>>`
unfoldable pub parse_fields : RedisReply → Outcome (List (Bytes × Bytes))
unfolding parse_map same_bytes
parse_fields = parse_map same_bytes parse_string parse_string

unfoldable pub parse_stream_entry : RedisReply → Outcome StreamEntry
unfolding array_of_two
parse_stream_entry r = do
  parts ← array_of_two "Invalid stream entry reply" "Null ID or fields reply" r
  id ← parse_stream_id parts.0
  fs ← parse_fields parts.1
  ok (record { id = id; fields = fs })

entry_loop : List StreamEntry → List (Option RedisReply) → Outcome (List StreamEntry)
entry_loop out [] = ok out
entry_loop out (none ∷ es) = throw (proto_error (codes "Null stream entry in array"))
entry_loop out (some r ∷ es) = do e ← parse_stream_entry r; entry_loop (out ++ e ∷ []) es

unfoldable pub parse_stream_entry_list : RedisReply → Outcome (List StreamEntry)
unfolding is_array entry_loop
parse_stream_entry_list r = do
  throw_if (not (is_array r)) (expected "ARRAY" r)
  elim (element r) [ none ↦ ok [] | some es ↦ entry_loop [] es ]

-- The inner loop of `parse<map_stream_entry_list>`: keys and lists of entries by turns.
stream_pairs :
    List (Bytes × List StreamEntry)
    → List (Option RedisReply)
    → Outcome (List (Bytes × List StreamEntry))
unfolding map_insert same_bytes
stream_pairs out [] = ok out
stream_pairs out (e ∷ []) =
    throw (proto_error (codes "Invalid array length for stream key-entry pairs"))
stream_pairs out (some k ∷ some v ∷ es) = do
  key ← parse_string k
  entries ← parse_stream_entry_list v
  stream_pairs (map_insert same_bytes out (key, entries)) es
stream_pairs out (a ∷ b ∷ es) = throw (proto_error (codes "Null key or entry in stream reply"))

-- One sub-reply: the test of its type stands inside the loop over its elements.
sub_stream :
    List (Bytes × List StreamEntry) → RedisReply → Outcome (List (Bytes × List StreamEntry))
unfolding is_array stream_pairs
sub_stream out r =
    if elements r == 0
    then ok out
    else if not (is_array r)
    then throw (expected "SUB_ARRAY" r)
    else if elements r == 1
    then throw (proto_error (codes "Invalid array length for stream key-entry pairs"))
    else elim (element r) [ none ↦ fault | some es ↦ stream_pairs out es ]

-- The outer loop reads through each pointer with no test.
stream_loop :
    List (Bytes × List StreamEntry)
    → List (Option RedisReply)
    → Outcome (List (Bytes × List StreamEntry))
unfolding sub_stream
stream_loop out [] = ok out
stream_loop out (none ∷ es) = fault
stream_loop out (some r ∷ es) = do out' ← sub_stream out r; stream_loop out' es

unfoldable pub parse_map_stream_entry_list : RedisReply → Outcome (List (Bytes × List StreamEntry))
unfolding is_array stream_loop
parse_map_stream_entry_list r = do
  throw_if (not (is_array r)) (expected "ARRAY" r)
  elim (element r) [ none ↦ ok [] | some es ↦ stream_loop [] es ]
