-- ===== src/Commands/Strings.antt =====
-- string_commands.h: the string commands. The two overloads of a method, which wait or take a
-- callback, ask for the same command, but for `mget` and `msetnx`, which return early only where
-- they wait.
pub mod Syntax
pub mod Replies
use qbm_redis.Base.{
  ℕ, Bool, true, false, not, List, [], ◌∷◌, Option, none, some, Bytes, codes, is_empty,
  if◌then◌else◌,
}
use qbm_redis.Base.Int.{ℤ, pos, eqb_ℤ}
use qbm_redis.Floating.{Floating}
use qbm_redis.Types.{UpdateType, exist, not_exist, always, Status}
use qbm_redis.Interval.{update_type_text}
use qbm_redis.Wire.{
  Arg, literal, str, number, floating, nullopt, engaged, pair, container, Args, end, arg,
}
use qbm_redis.Outcome.{Outcome, ok, ◌>>=◌}
use qbm_redis.Reply.{RedisReply}
use qbm_redis.Reply.Scalars.{parse_string, parse_long_long, parse_double, parse_bool, parse_status}
use qbm_redis.Reply.Containers.{parse_optional, parse_sequence}
use qbm_redis.Commands.Arguments.{string_args, pair_args, to_bool, parse_optional_string}
use qbm_redis.Commands.{Request, Call, sends, returns, args_1, args_2, args_3, args_4, args_5}

module _ {D : Type 0} where
  -- `std::optional<std::string> opt; if (type != UpdateType::ALWAYS) opt = std::to_string(type);`
  unfoldable pub update_option : UpdateType → Arg D
  unfolding update_type_text
  update_option always = nullopt
  update_option exist = engaged (str (update_type_text exist))
  update_option not_exist = engaged (str (update_type_text not_exist))

module _ {D : Type 0} where
  unfoldable pub append : Bytes → Bytes → Request D ℤ
  append key val = record {
    name = codes "APPEND";
    args = args_2 (str key) (str val);
    parse = parse_long_long;
  }

  unfoldable pub decr : Bytes → Request D ℤ
  decr key = record { name = codes "DECR"; args = args_1 (str key); parse = parse_long_long }

  unfoldable pub decrby : Bytes → ℤ → Request D ℤ
  decrby key decrement = record {
    name = codes "DECRBY";
    args = args_2 (str key) (number decrement);
    parse = parse_long_long;
  }

  unfoldable pub get : Bytes → Request D (Option Bytes)
  get key = record { name = codes "GET"; args = args_1 (str key); parse = parse_optional_string }

  unfoldable pub getrange : Bytes → ℤ → ℤ → Request D Bytes
  getrange key start stop = record {
    name = codes "GETRANGE";
    args = args_3 (str key) (number start) (number stop);
    parse = parse_string;
  }

  unfoldable pub getset : Bytes → Bytes → Request D (Option Bytes)
  getset key val = record {
    name = codes "GETSET";
    args = args_2 (str key) (str val);
    parse = parse_optional_string;
  }

  unfoldable pub incr : Bytes → Request D ℤ
  incr key = record { name = codes "INCR"; args = args_1 (str key); parse = parse_long_long }

  unfoldable pub incrby : Bytes → ℤ → Request D ℤ
  incrby key increment = record {
    name = codes "INCRBY";
    args = args_2 (str key) (number increment);
    parse = parse_long_long;
  }

  unfoldable pub mget_request : List Bytes → Request D (List (Option Bytes))
  unfolding string_args
  mget_request keys = record {
    name = codes "MGET";
    args = args_1 (container (string_args keys));
    parse = parse_sequence parse_optional_string;
  }

  -- `mget(keys)`; `mget(func, keys)` sends the request in any case.
  unfoldable pub mget : List Bytes → Call D (List (Option Bytes))
  unfolding mget_request is_empty
  mget keys = if is_empty keys then returns [] else sends (mget_request keys)

  unfoldable pub mset : List (Bytes × Bytes) → Request D Status
  unfolding pair_args
  mset keys = record {
    name = codes "MSET";
    args = args_1 (container (pair_args keys));
    parse = parse_status;
  }

  unfoldable pub msetnx_request : List (Bytes × Bytes) → Request D ℤ
  unfolding pair_args
  msetnx_request keys = record {
    name = codes "MSETNX";
    args = args_1 (container (pair_args keys));
    parse = parse_long_long;
  }

  -- `msetnx(keys)`: the `long long` result becomes a `bool`.
  unfoldable pub msetnx : List (Bytes × Bytes) → Call D Bool
  unfolding msetnx_request is_empty to_bool
  msetnx keys =
      if is_empty keys
      then returns false
      else sends (record {
        name = (msetnx_request keys).name;
        args = (msetnx_request keys).args;
        parse = λ r. (msetnx_request keys).parse r >>= λ n. ok (to_bool n);
      })

  unfoldable pub psetex : Bytes → ℤ → Bytes → Request D Status
  psetex key ttl val = record {
    name = codes "PSETEX";
    args = args_3 (str key) (number ttl) (str val);
    parse = parse_status;
  }

  -- `set(key, val, type)`
  unfoldable pub set : Bytes → Bytes → UpdateType → Request D Status
  unfolding update_option
  set key val type = record {
    name = codes "SET";
    args = args_3 (str key) (str val) (update_option type);
    parse = parse_status;
  }

  -- `set(key, val, ttl, type)`
  unfoldable pub set_ttl : Bytes → Bytes → ℤ → UpdateType → Request D Status
  unfolding update_option codes
  set_ttl key val ttl type = record {
    name = codes "SET";
    args = args_5 (str key) (str val) (literal (codes "PX")) (number ttl) (update_option type);
    parse = parse_status;
  }

  unfoldable pub setex : Bytes → ℤ → Bytes → Request D Status
  setex key ttl val = record {
    name = codes "SETEX";
    args = args_3 (str key) (number ttl) (str val);
    parse = parse_status;
  }

  unfoldable pub setnx : Bytes → Bytes → Request D Bool
  setnx key val = record {
    name = codes "SETNX";
    args = args_2 (str key) (str val);
    parse = parse_bool;
  }

  unfoldable pub setrange : Bytes → ℤ → Bytes → Request D ℤ
  setrange key offset val = record {
    name = codes "SETRANGE";
    args = args_3 (str key) (number offset) (str val);
    parse = parse_long_long;
  }

  unfoldable pub strlen : Bytes → Request D ℤ
  strlen key = record { name = codes "STRLEN"; args = args_1 (str key); parse = parse_long_long }

  unfoldable pub getdel : Bytes → Request D (Option Bytes)
  getdel key = record {
    name = codes "GETDEL";
    args = args_1 (str key);
    parse = parse_optional_string;
  }

  -- `getex(key, long long)`
  unfoldable pub getex : Bytes → ℤ → Request D (Option Bytes)
  getex key ttl = record {
    name = codes "GETEX";
    args = args_3 (str key) (literal (codes "EX")) (number ttl);
    parse = parse_optional_string;
  }

  -- `getex(key, std::chrono::milliseconds)`
  unfoldable pub getex_milliseconds : Bytes → ℤ → Request D (Option Bytes)
  getex_milliseconds key ttl = record {
    name = codes "GETEX";
    args = args_3 (str key) (literal (codes "PX")) (number ttl);
    parse = parse_optional_string;
  }

  unfoldable pub lcs : Bytes → Bytes → Request D Bytes
  lcs key1 key2 = record {
    name = codes "LCS";
    args = args_2 (str key1) (str key2);
    parse = parse_string;
  }

  -- The overloads with a `std::chrono` duration pass its count on.
  unfoldable pub psetex_milliseconds : Bytes → ℤ → Bytes → Request D Status
  unfolding psetex
  psetex_milliseconds key count val = psetex key count val

  unfoldable pub set_milliseconds : Bytes → Bytes → ℤ → UpdateType → Request D Status
  unfolding set_ttl
  set_milliseconds key val count type = set_ttl key val count type

  unfoldable pub setex_seconds : Bytes → ℤ → Bytes → Request D Status
  unfolding setex
  setex_seconds key count val = setex key count val

module _ {D : Type 0} ⦃F : Floating D⦄ where
  unfoldable pub incrbyfloat : Bytes → D → Request D D
  incrbyfloat key increment = record {
    name = codes "INCRBYFLOAT";
    args = args_2 (str key) (floating increment);
    parse = parse_double;
  }
