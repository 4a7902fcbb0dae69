-- ===== src/Commands/Lists/Ends.antt =====
-- list_commands.h: LLEN, and the commands that push to and pop from the ends of a list.
use qbm_redis.Base.{◌||◌, List, [], Option, none, Bytes, codes, is_empty, ◌==◌}
use qbm_redis.Base.Int.{ℤ, pos, ltb_ℤ}
use qbm_redis.Wire.{str, number, container, Args, arg, size}
use qbm_redis.Outcome.{Outcome}
use qbm_redis.Reply.{RedisReply}
use qbm_redis.Reply.Scalars.{parse_string, parse_long_long}
use qbm_redis.Reply.Containers.{parse_optional, parse_sequence, parse_pair}
use qbm_redis.Commands.{Request, Call, sends, unless, args_1, args_2}
use qbm_redis.Commands.Arguments.{string_args, parse_optional_string}

-- `std::optional<std::pair<std::string, std::string>>`
abbrev pub parse_key_value : RedisReply → Outcome (Option (Bytes × Bytes))
parse_key_value = parse_optional (parse_pair parse_string parse_string)

module _ {D : Type 0} where
  unfoldable pub llen_request : Bytes → Request D ℤ
  llen_request key = record {
    name = codes "LLEN";
    args = args_1 (str key);
    parse = parse_long_long;
  }

  unfoldable pub llen : Bytes → Call D ℤ
  unfolding llen_request is_empty
  llen key = unless (is_empty key) (pos 0) (llen_request key)

  unfoldable pub lpush_request : Bytes → Args D → Request D ℤ
  lpush_request key values = record {
    name = codes "LPUSH";
    args = arg (str key) values;
    parse = parse_long_long;
  }

  unfoldable pub lpush : Bytes → Args D → Call D ℤ
  unfolding lpush_request is_empty size
  lpush key values = unless (is_empty key || size values == 0) (pos 0) (lpush_request key values)

  unfoldable pub lpushx_request : Bytes → Args D → Request D ℤ
  lpushx_request key values = record {
    name = codes "LPUSHX";
    args = arg (str key) values;
    parse = parse_long_long;
  }

  unfoldable pub lpushx : Bytes → Args D → Call D ℤ
  unfolding lpushx_request is_empty size
  lpushx key values = unless (is_empty key || size values == 0) (pos 0) (lpushx_request key values)

  unfoldable pub rpush_request : Bytes → Args D → Request D ℤ
  rpush_request key values = record {
    name = codes "RPUSH";
    args = arg (str key) values;
    parse = parse_long_long;
  }

  unfoldable pub rpush : Bytes → Args D → Call D ℤ
  unfolding rpush_request is_empty size
  rpush key values = unless (is_empty key || size values == 0) (pos 0) (rpush_request key values)

  -- The overload of `rpushx` with a callback takes any number of values, the other one a text.
  unfoldable pub rpushx_request : Bytes → Args D → Request D ℤ
  rpushx_request key values = record {
    name = codes "RPUSHX";
    args = arg (str key) values;
    parse = parse_long_long;
  }

  unfoldable pub rpushx : Bytes → Bytes → Call D ℤ
  unfolding rpushx_request is_empty
  rpushx key val =
      unless (is_empty key || is_empty val) (pos 0) (rpushx_request key (args_1 (str val)))

  unfoldable pub lpop_count_request : Bytes → ℤ → Request D (List Bytes)
  lpop_count_request key count = record {
    name = codes "LPOP";
    args = args_2 (str key) (number count);
    parse = parse_sequence parse_string;
  }

  unfoldable pub lpop_count : Bytes → ℤ → Call D (List Bytes)
  unfolding lpop_count_request is_empty ltb_ℤ
  lpop_count key count =
      unless (is_empty key || ltb_ℤ count (pos 1)) [] (lpop_count_request key count)

  unfoldable pub lpop_request : Bytes → Request D (Option Bytes)
  lpop_request key = record {
    name = codes "LPOP";
    args = args_1 (str key);
    parse = parse_optional_string;
  }

  unfoldable pub lpop : Bytes → Call D (Option Bytes)
  unfolding lpop_request
  lpop key = sends (lpop_request key)

  unfoldable pub rpop_count_request : Bytes → ℤ → Request D (List Bytes)
  rpop_count_request key count = record {
    name = codes "RPOP";
    args = args_2 (str key) (number count);
    parse = parse_sequence parse_string;
  }

  unfoldable pub rpop_count : Bytes → ℤ → Call D (List Bytes)
  unfolding rpop_count_request is_empty ltb_ℤ
  rpop_count key count =
      unless (is_empty key || ltb_ℤ count (pos 1)) [] (rpop_count_request key count)

  unfoldable pub rpop_request : Bytes → Request D (Option Bytes)
  rpop_request key = record {
    name = codes "RPOP";
    args = args_1 (str key);
    parse = parse_optional_string;
  }

  unfoldable pub rpop : Bytes → Call D (Option Bytes)
  unfolding rpop_request
  rpop key = sends (rpop_request key)

  unfoldable pub blpop_request : List Bytes → ℤ → Request D (Option (Bytes × Bytes))
  unfolding string_args
  blpop_request keys timeout = record {
    name = codes "BLPOP";
    args = args_2 (container (string_args keys)) (number timeout);
    parse = parse_key_value;
  }

  unfoldable pub blpop : List Bytes → ℤ → Call D (Option (Bytes × Bytes))
  unfolding blpop_request is_empty
  blpop keys timeout = unless (is_empty keys) none (blpop_request keys timeout)

  -- The overload with a `std::chrono` duration passes its count on.
  unfoldable pub blpop_seconds : List Bytes → ℤ → Call D (Option (Bytes × Bytes))
  unfolding blpop
  blpop_seconds keys count = blpop keys count

  unfoldable pub brpop_request : List Bytes → ℤ → Request D (Option (Bytes × Bytes))
  unfolding string_args
  brpop_request keys timeout = record {
    name = codes "BRPOP";
    args = args_2 (container (string_args keys)) (number timeout);
    parse = parse_key_value;
  }

  unfoldable pub brpop : List Bytes → ℤ → Call D (Option (Bytes × Bytes))
  unfolding brpop_request is_empty
  brpop keys timeout = unless (is_empty keys) none (brpop_request keys timeout)

  -- The overload with a `std::chrono` duration passes its count on.
  unfoldable pub brpop_seconds : List Bytes → ℤ → Call D (Option (Bytes × Bytes))
  unfolding brpop
  brpop_seconds keys count = brpop keys count
