-- ===== src/Commands/Hashes.antt =====
-- hash_commands.h: the hash commands. The two overloads of a method ask for the same command; `hscan`
-- returns early for an empty key.
pub mod Syntax
pub mod Replies
use qbm_redis.Base.{
  ℕ, Bool, true, false, List, [], ◌∷◌, Option, none, some, Bytes, codes, is_empty, same_bytes,
  if◌then◌else◌,
}
use qbm_redis.Base.Int.{ℤ}
use qbm_redis.Floating.{Floating}
use qbm_redis.Types.{Status, Scan}
use qbm_redis.Wire.{Arg, literal, str, number, floating, Args, end, arg}
use qbm_redis.Outcome.{Outcome, ok, ◌>>=◌}
use qbm_redis.Reply.{RedisReply}
use qbm_redis.Reply.Scalars.{parse_string, parse_long_long, parse_double, parse_bool, parse_status}
use qbm_redis.Reply.Containers.{parse_sequence, parse_map, parse_scan}
use qbm_redis.Commands.{Request, Call, sends, returns, unless, args_1, args_2, args_3}
use qbm_redis.Commands.Arguments.{to_bool, parse_optional_string}

-- `qb::unordered_map<std::string, std::string>`
abbrev pub parse_string_map : RedisReply → Outcome (List (Bytes × Bytes))
parse_string_map = parse_map same_bytes parse_string parse_string

module _ {D : Type 0} where
  unfoldable pub hdel : Bytes → Args D → Request D ℤ
  hdel key fields = record {
    name = codes "HDEL";
    args = arg (str key) fields;
    parse = parse_long_long;
  }

  unfoldable pub hexists : Bytes → Bytes → Request D Bool
  hexists key field = record {
    name = codes "HEXISTS";
    args = args_2 (str key) (str field);
    parse = parse_bool;
  }

  unfoldable pub hget : Bytes → Bytes → Request D (Option Bytes)
  hget key field = record {
    name = codes "HGET";
    args = args_2 (str key) (str field);
    parse = parse_optional_string;
  }

  unfoldable pub hgetall : Bytes → Request D (List (Bytes × Bytes))
  hgetall key = record { name = codes "HGETALL"; args = args_1 (str key); parse = parse_string_map }

  unfoldable pub hincrby : Bytes → Bytes → ℤ → Request D ℤ
  hincrby key field increment = record {
    name = codes "HINCRBY";
    args = args_3 (str key) (str field) (number increment);
    parse = parse_long_long;
  }

  unfoldable pub hkeys : Bytes → Request D (List Bytes)
  hkeys pattern = record {
    name = codes "HKEYS";
    args = args_1 (str pattern);
    parse = parse_sequence parse_string;
  }

  unfoldable pub hlen : Bytes → Request D ℤ
  hlen key = record { name = codes "HLEN"; args = args_1 (str key); parse = parse_long_long }

  unfoldable pub hmget : Bytes → Args D → Request D (List (Option Bytes))
  hmget key fields = record {
    name = codes "HMGET";
    args = arg (str key) fields;
    parse = parse_sequence parse_optional_string;
  }

  unfoldable pub hmset : Bytes → Args D → Request D Status
  hmset key field_values = record {
    name = codes "HMSET";
    args = arg (str key) field_values;
    parse = parse_status;
  }

  unfoldable pub hscan_request : Bytes → ℤ → Bytes → ℤ → Request D (Scan (List (Bytes × Bytes)))
  hscan_request key cursor pattern count = record {
    name = codes "HSCAN";
    args = arg (str key) (
        arg (number cursor) (
          arg (literal (codes "MATCH"))
            (arg (str pattern) (arg (literal (codes "COUNT")) (arg (number count) end)))));
    parse = parse_scan parse_string_map;
  }

  unfoldable pub hscan : Bytes → ℤ → Bytes → ℤ → Call D (Scan (List (Bytes × Bytes)))
  unfolding hscan_request is_empty
  hscan key cursor pattern count =
      unless (is_empty key) (record { cursor = 0; items = [] })
        (hscan_request key cursor pattern count)

  unfoldable pub hset : Bytes → Bytes → Bytes → Request D ℤ
  hset key field val = record {
    name = codes "HSET";
    args = args_3 (str key) (str field) (str val);
    parse = parse_long_long;
  }

  -- `hset(key, item)`, which waits: the `long long` becomes a `bool`.
  unfoldable pub hset_item : Bytes → Bytes × Bytes → Request D Bool
  unfolding hset to_bool
  hset_item key item = record {
    name = (hset key item.0 item.1).name;
    args = (hset key item.0 item.1).args;
    parse = λ r. (hset key item.0 item.1).parse r >>= λ n. ok (to_bool n);
  }

  unfoldable pub hsetnx : Bytes → Bytes → Bytes → Request D Bool
  hsetnx key field val = record {
    name = codes "HSETNX";
    args = args_3 (str key) (str field) (str val);
    parse = parse_bool;
  }

  unfoldable pub hsetnx_item : Bytes → Bytes × Bytes → Request D Bool
  unfolding hsetnx
  hsetnx_item key item = hsetnx key item.0 item.1

  unfoldable pub hstrlen : Bytes → Bytes → Request D ℤ
  hstrlen key field = record {
    name = codes "HSTRLEN";
    args = args_2 (str key) (str field);
    parse = parse_long_long;
  }

  unfoldable pub hvals : Bytes → Request D (List Bytes)
  hvals key = record {
    name = codes "HVALS";
    args = args_1 (str key);
    parse = parse_sequence parse_string;
  }

module _ {D : Type 0} ⦃F : Floating D⦄ where
  unfoldable pub hincrbyfloat : Bytes → Bytes → D → Request D D
  hincrbyfloat key field increment = record {
    name = codes "HINCRBYFLOAT";
    args = args_3 (str key) (str field) (floating increment);
    parse = parse_double;
  }
