-- ===== src/Commands/Sets/Members.antt =====
-- set_commands.h: the commands on one set, and SMOVE.
use qbm_redis.Base.{
  Bool, false, ◌||◌, List, [], ◌∷◌, Option, none, Bytes, codes, is_empty, same_bytes, ◌==◌,
  if◌then◌else◌,
}
use qbm_redis.Base.Int.{ℤ, pos, ltb_ℤ}
use qbm_redis.Types.{Scan}
use qbm_redis.Wire.{literal, str, number, Args, end, arg, size}
use qbm_redis.Outcome.{Outcome, ok, ◌>>=◌}
use qbm_redis.Reply.{RedisReply}
use qbm_redis.Reply.Scalars.{parse_string, parse_long_long, parse_bool}
use qbm_redis.Reply.Containers.{parse_sequence, parse_scan}
use qbm_redis.Commands.{Request, Call, unless, args_1, args_2, args_3}
use qbm_redis.Commands.Arguments.{parse_optional_string}

-- `insert` of a set, whose elements are listed in the order in which they were inserted.
unfoldable pub set_insert : List Bytes → Bytes → List Bytes
unfolding same_bytes
set_insert [] s = s ∷ []
set_insert (t ∷ ts) s = if same_bytes t s then t ∷ ts else t ∷ set_insert ts s

unfoldable pub set_of : List Bytes → List Bytes → List Bytes
unfolding set_insert
set_of found [] = found
set_of found (s ∷ ss) = set_of (set_insert found s) ss

-- `parse<qb::unordered_set<std::string>>`
unfoldable pub parse_string_set : RedisReply → Outcome (List Bytes)
unfolding parse_sequence set_of
parse_string_set r = do ss ← parse_sequence parse_string r; ok (set_of [] ss)

module _ {D : Type 0} where
  unfoldable pub sadd_request : Bytes → Args D → Request D ℤ
  sadd_request key members = record {
    name = codes "SADD";
    args = arg (str key) members;
    parse = parse_long_long;
  }

  unfoldable pub sadd : Bytes → Args D → Call D ℤ
  unfolding sadd_request is_empty size
  sadd key members = unless (is_empty key || size members == 0) (pos 0) (sadd_request key members)

  unfoldable pub srem_request : Bytes → Args D → Request D ℤ
  srem_request key members = record {
    name = codes "SREM";
    args = arg (str key) members;
    parse = parse_long_long;
  }

  unfoldable pub srem : Bytes → Args D → Call D ℤ
  unfolding srem_request is_empty size
  srem key members = unless (is_empty key || size members == 0) (pos 0) (srem_request key members)

  unfoldable pub smismember_request : Bytes → Args D → Request D (List Bool)
  smismember_request key members = record {
    name = codes "SMISMEMBER";
    args = arg (str key) members;
    parse = parse_sequence parse_bool;
  }

  unfoldable pub smismember : Bytes → Args D → Call D (List Bool)
  unfolding smismember_request is_empty size
  smismember key members =
      unless (is_empty key || size members == 0) [] (smismember_request key members)

  unfoldable pub scard_request : Bytes → Request D ℤ
  scard_request key = record {
    name = codes "SCARD";
    args = args_1 (str key);
    parse = parse_long_long;
  }

  unfoldable pub scard : Bytes → Call D ℤ
  unfolding scard_request is_empty
  scard key = unless (is_empty key) (pos 0) (scard_request key)

  unfoldable pub sismember_request : Bytes → Bytes → Request D Bool
  sismember_request key member = record {
    name = codes "SISMEMBER";
    args = args_2 (str key) (str member);
    parse = parse_bool;
  }

  unfoldable pub sismember : Bytes → Bytes → Call D Bool
  unfolding sismember_request is_empty
  sismember key member =
      unless (is_empty key || is_empty member) false (sismember_request key member)

  unfoldable pub smembers_request : Bytes → Request D (List Bytes)
  smembers_request key = record {
    name = codes "SMEMBERS";
    args = args_1 (str key);
    parse = parse_string_set;
  }

  unfoldable pub smembers : Bytes → Call D (List Bytes)
  unfolding smembers_request is_empty
  smembers key = unless (is_empty key) [] (smembers_request key)

  unfoldable pub smove_request : Bytes → Bytes → Bytes → Request D Bool
  smove_request source destination member = record {
    name = codes "SMOVE";
    args = args_3 (str source) (str destination) (str member);
    parse = parse_bool;
  }

  unfoldable pub smove : Bytes → Bytes → Bytes → Call D Bool
  unfolding smove_request is_empty
  smove source destination member =
      unless (is_empty source || is_empty destination || is_empty member) false
        (smove_request source destination member)

  unfoldable pub spop_request : Bytes → Request D (Option Bytes)
  spop_request key = record {
    name = codes "SPOP";
    args = args_1 (str key);
    parse = parse_optional_string;
  }

  unfoldable pub spop : Bytes → Call D (Option Bytes)
  unfolding spop_request is_empty
  spop key = unless (is_empty key) none (spop_request key)

  unfoldable pub srandmember_request : Bytes → Request D (Option Bytes)
  srandmember_request key = record {
    name = codes "SRANDMEMBER";
    args = args_1 (str key);
    parse = parse_optional_string;
  }

  unfoldable pub srandmember : Bytes → Call D (Option Bytes)
  unfolding srandmember_request is_empty
  srandmember key = unless (is_empty key) none (srandmember_request key)

  unfoldable pub spop_count_request : Bytes → ℤ → Request D (List Bytes)
  spop_count_request key count = record {
    name = codes "SPOP";
    args = args_2 (str key) (number count);
    parse = parse_sequence parse_string;
  }

  unfoldable pub spop_count : Bytes → ℤ → Call D (List Bytes)
  unfolding spop_count_request is_empty ltb_ℤ
  spop_count key count =
      unless (is_empty key || ltb_ℤ count (pos 1)) [] (spop_count_request key count)

  unfoldable pub srandmember_count_request : Bytes → ℤ → Request D (List Bytes)
  srandmember_count_request key count = record {
    name = codes "SRANDMEMBER";
    args = args_2 (str key) (number count);
    parse = parse_sequence parse_string;
  }

  unfoldable pub srandmember_count : Bytes → ℤ → Call D (List Bytes)
  unfolding srandmember_count_request is_empty
  srandmember_count key count = unless (is_empty key) [] (srandmember_count_request key count)

  unfoldable pub sscan_request : Bytes → ℤ → Bytes → ℤ → Request D (Scan (List Bytes))
  sscan_request key cursor pattern count = record {
    name = codes "SSCAN";
    args = arg (str key) (
        arg (number cursor) (
          arg (literal (codes "MATCH"))
            (arg (str pattern) (arg (literal (codes "COUNT")) (arg (number count) end)))));
    parse = parse_scan (parse_sequence parse_string);
  }

  unfoldable pub sscan : Bytes → ℤ → Bytes → ℤ → Call D (Scan (List Bytes))
  unfolding sscan_request is_empty
  sscan key cursor pattern count =
      unless (is_empty key) (record { cursor = 0; items = [] })
        (sscan_request key cursor pattern count)
