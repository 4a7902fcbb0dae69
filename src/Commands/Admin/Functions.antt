-- ===== src/Commands/Admin/Functions.antt =====
-- function_commands.h: the commands on functions.
use qbm_redis.Base.{List, Option, Bytes, codes}
use qbm_redis.Floating.{Floating}
use qbm_redis.Types.{Status}
use qbm_redis.Reply.Scalars.{parse_string, parse_status}
use qbm_redis.Reply.Json.{Json, JsonText, parse_json}
use qbm_redis.Reply.Containers.{parse_sequence}
use qbm_redis.Commands.{Request, args_1, args_2, args_3}
use qbm_redis.Commands.Arguments.{append_args}
use qbm_redis.Wire.{literal, str, Args, end, arg}
use qbm_redis.Commands.Admin.{library_args}

module _ {D : Type 0} ⦃F : Floating D⦄ ⦃J : JsonText D⦄ where
  unfoldable pub function_list_request : Option Bytes → Request D (Json D)
  unfolding library_args
  function_list_request library = record {
    name = codes "FUNCTION";
    args = arg (literal (codes "LIST")) (library_args library);
    parse = parse_json;
  }

module _ {D : Type 0} where
  unfoldable pub function_load_request : Bytes → Args D → Request D Status
  unfolding append_args
  function_load_request code options = record {
    name = codes "FUNCTION";
    args = arg (literal (codes "LOAD")) (append_args options (arg (str code) end));
    parse = parse_status;
  }

  unfoldable pub function_delete_request : Bytes → Request D Status
  function_delete_request library = record {
    name = codes "FUNCTION";
    args = args_2 (literal (codes "DELETE")) (str library);
    parse = parse_status;
  }

  unfoldable pub function_flush_request : Bytes → Request D Status
  function_flush_request mode = record {
    name = codes "FUNCTION";
    args = args_2 (literal (codes "FLUSH")) (str mode);
    parse = parse_status;
  }

  unfoldable pub function_kill_request : Request D Status
  function_kill_request = record {
    name = codes "FUNCTION";
    args = args_1 (literal (codes "KILL"));
    parse = parse_status;
  }

module _ {D : Type 0} ⦃F : Floating D⦄ ⦃J : JsonText D⦄ where
  unfoldable pub function_stats_request : Request D (Json D)
  function_stats_request = record {
    name = codes "FUNCTION";
    args = args_1 (literal (codes "STATS"));
    parse = parse_json;
  }

  unfoldable pub function_dump_request : Request D (Json D)
  function_dump_request = record {
    name = codes "FUNCTION";
    args = args_1 (literal (codes "DUMP"));
    parse = parse_json;
  }

module _ {D : Type 0} where
  unfoldable pub function_restore_request : Bytes → Bytes → Request D Status
  function_restore_request payload policy = record {
    name = codes "FUNCTION";
    args = args_3 (literal (codes "RESTORE")) (str policy) (str payload);
    parse = parse_status;
  }

  unfoldable pub function_help_request : Request D (List Bytes)
  function_help_request = record {
    name = codes "FUNCTION";
    args = args_1 (literal (codes "HELP"));
    parse = parse_sequence parse_string;
  }
