-- ===== src/Commands/Admin/Loading.antt =====
-- module_commands.h: the commands on modules of the server.
use qbm_redis.Base.{List, Bytes, codes}
use qbm_redis.Floating.{Floating}
use qbm_redis.Types.{Status}
use qbm_redis.Reply.Scalars.{parse_string, parse_status}
use qbm_redis.Reply.Json.{Json, JsonText, parse_json}
use qbm_redis.Reply.Containers.{parse_sequence}
use qbm_redis.Commands.{Request, args_1, args_2}
use qbm_redis.Wire.{literal, str, Args, arg}

module _ {D : Type 0} ⦃F : Floating D⦄ ⦃J : JsonText D⦄ where
  unfoldable pub module_list_request : Request D (Json D)
  module_list_request = record {
    name = codes "MODULE";
    args = args_1 (literal (codes "LIST"));
    parse = parse_json;
  }

module _ {D : Type 0} where
  unfoldable pub module_load_request : Bytes → Args D → Request D Status
  module_load_request path args = record {
    name = codes "MODULE";
    args = arg (literal (codes "LOAD")) (arg (str path) args);
    parse = parse_status;
  }

  unfoldable pub module_unload_request : Bytes → Request D Status
  module_unload_request name = record {
    name = codes "MODULE";
    args = args_2 (literal (codes "UNLOAD")) (str name);
    parse = parse_status;
  }

  unfoldable pub module_help_request : Request D (List Bytes)
  module_help_request = record {
    name = codes "MODULE";
    args = args_1 (literal (codes "HELP"));
    parse = parse_sequence parse_string;
  }
