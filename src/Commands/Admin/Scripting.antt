-- ===== src/Commands/Admin/Scripting.antt =====
-- scripting_commands.h: the scripting commands. `eval` and `evalsha` have a result of any type.
use qbm_redis.Base.{Bool, List, Bytes, codes, length}
use qbm_redis.Base.Int.{pos}
use qbm_redis.Types.{Status}
use qbm_redis.Outcome.{Outcome}
use qbm_redis.Reply.{RedisReply}
use qbm_redis.Reply.Scalars.{parse_string, parse_bool, parse_status}
use qbm_redis.Reply.Containers.{parse_sequence}
use qbm_redis.Commands.{Request, args_1, args_2, args_4}
use qbm_redis.Commands.Arguments.{string_args}
use qbm_redis.Wire.{literal, str, number, container, Args, arg}

module _ {D T : Type 0} (parse : RedisReply → Outcome T) where
  unfoldable pub eval_request : Bytes → List Bytes → List Bytes → Request D T
  unfolding string_args
  eval_request script keys args = record {
    name = codes "EVAL";
    args =
        args_4 (str script) (number (pos (length keys))) (container (string_args keys))
          (container (string_args args));
    parse = parse;
  }

  unfoldable pub evalsha_request : Bytes → List Bytes → List Bytes → Request D T
  unfolding string_args
  evalsha_request script keys args = record {
    name = codes "EVALSHA";
    args =
        args_4 (str script) (number (pos (length keys))) (container (string_args keys))
          (container (string_args args));
    parse = parse;
  }

module _ {D : Type 0} where
  unfoldable pub script_exists_request : Args D → Request D (List Bool)
  script_exists_request keys = record {
    name = codes "SCRIPT";
    args = arg (literal (codes "EXISTS")) keys;
    parse = parse_sequence parse_bool;
  }

  unfoldable pub script_flush_request : Request D Status
  script_flush_request = record {
    name = codes "SCRIPT";
    args = args_1 (literal (codes "FLUSH"));
    parse = parse_status;
  }

  unfoldable pub script_kill_request : Request D Status
  script_kill_request = record {
    name = codes "SCRIPT";
    args = args_1 (literal (codes "KILL"));
    parse = parse_status;
  }

  unfoldable pub script_load_request : Bytes → Request D Bytes
  script_load_request script = record {
    name = codes "SCRIPT";
    args = args_2 (literal (codes "LOAD")) (str script);
    parse = parse_string;
  }
