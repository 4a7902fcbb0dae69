-- ===== src/Commands/Streams.antt =====
-- stream_commands.h: the stream commands. `x_request` is the command that the method `x` asks for;
-- the lists of arguments that the methods build come first.
pub mod Entries
pub mod Groups
pub mod Ids
pub mod Syntax
pub mod Requests
pub mod Replies
use qbm_redis.Base.{
  ℕ, Bool, true, false, not, ◌||◌, List, [], ◌∷◌, ◌++◌, Option, none, some, Bytes, codes, is_empty,
  length, ◌==◌, if◌then◌else◌,
}
use qbm_redis.Base.Int.{ℤ, pos}
use qbm_redis.Decimal.{to_string, Numeric, value, stoll}
use qbm_redis.Types.{StreamId}
use qbm_redis.Reply.Streams.{split_dash, no_id}
use qbm_redis.Commands.Arguments.{push_if, insert_option}

-- `id ? *id : "*"`
unfoldable pub id_or_any : Option Bytes → Bytes
unfolding codes
id_or_any none = codes "*"
id_or_any (some id) = id

-- `args` of XGROUP CREATE, of XTRIM, of XREAD, of XREADGROUP and of XPENDING
unfoldable pub create_args : Bytes → Bytes → Bytes → Bool → List Bytes
unfolding push_if codes
create_args key group id mkstream =
    push_if mkstream (codes "MKSTREAM" ∷ []) (codes "CREATE" ∷ key ∷ group ∷ id ∷ [])

unfoldable pub trim_args : Bytes → ℤ → Bool → List Bytes
unfolding codes
trim_args key maxlen approximate =
    if approximate
    then (key ∷ codes "MAXLEN" ∷ codes "~" ∷ []) ++ to_string maxlen ∷ []
    else (key ∷ codes "MAXLEN" ∷ codes "=" ∷ []) ++ to_string maxlen ∷ []

unfoldable pub read_args : Option ℤ → Option ℤ → List Bytes
unfolding insert_option codes
read_args count block = insert_option (codes "BLOCK") block (insert_option (codes "COUNT") count [])

unfoldable pub group_args : Bytes → Bytes → Option ℤ → Option ℤ → List Bytes
unfolding insert_option codes
group_args group consumer count block =
    insert_option (codes "BLOCK") block
      (insert_option (codes "COUNT") count (codes "GROUP" ∷ group ∷ consumer ∷ []))

unfoldable pub pending_args : Bytes → Bytes → Bytes → Bytes → ℤ → Option Bytes → List Bytes
pending_args key group start last count none = key ∷ group ∷ start ∷ last ∷ to_string count ∷ []
pending_args key group start last count (some consumer) =
    (key ∷ group ∷ start ∷ last ∷ to_string count ∷ []) ++ consumer ∷ []

-- The test of `keys` and `ids`, behind which `std::invalid_argument` is thrown.
unfoldable pub is_invalid : List Bytes → List Bytes → Bool
unfolding is_empty
is_invalid keys ids = is_empty keys || not (length keys == length ids)

-- The static `parse_stream_id`: a part that is no number leaves the id as it is by then.
second_part : ℤ → Numeric ℤ → StreamId
second_part t (value n) = record { timestamp = t; sequence = n }
second_part t _ = record { timestamp = t; sequence = pos 0 }

id_of_parts : Numeric ℤ → Numeric ℤ → StreamId
unfolding second_part
id_of_parts (value t) n = second_part t n
id_of_parts _ n = no_id

unfoldable pub lenient_id : Bytes → StreamId
unfolding split_dash id_of_parts
lenient_id id_str = elim (split_dash id_str) [
  | none ↦ no_id
  | some (before, behind) ↦ id_of_parts (stoll before) (stoll behind)
]
