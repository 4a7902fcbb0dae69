-- ===== src/Commands/Streams/Groups.antt =====
-- stream_commands.h: the commands on consumer groups. Those of xreadgroup for several keys:
-- `xreadgroup_of_keys_request`.
use qbm_redis.Base.{Bool, List, Option, Bytes, codes}
use qbm_redis.Base.Int.{ℤ}
use qbm_redis.Floating.{Floating}
use qbm_redis.Types.{Status}
use qbm_redis.Reply.Scalars.{parse_long_long, parse_status}
use qbm_redis.Reply.Json.{Json, JsonText, parse_json}
use qbm_redis.Commands.{Request, args_1, args_2, args_3, args_4}
use qbm_redis.Commands.Arguments.{string_args}
use qbm_redis.Wire.{literal, str, container, Args, arg}
use qbm_redis.Commands.Streams.{create_args, group_args, pending_args}

module _ {D : Type 0} where
  unfoldable pub xgroup_create_request : Bytes → Bytes → Bytes → Bool → Request D Status
  unfolding string_args create_args
  xgroup_create_request key group id mkstream = record {
    name = codes "XGROUP";
    args = args_1 (container (string_args (create_args key group id mkstream)));
    parse = parse_status;
  }

  unfoldable pub xgroup_destroy_request : Bytes → Bytes → Request D ℤ
  xgroup_destroy_request key group = record {
    name = codes "XGROUP";
    args = args_3 (literal (codes "DESTROY")) (str key) (str group);
    parse = parse_long_long;
  }

  unfoldable pub xgroup_delconsumer_request : Bytes → Bytes → Bytes → Request D ℤ
  xgroup_delconsumer_request key group consumer = record {
    name = codes "XGROUP";
    args = args_4 (literal (codes "DELCONSUMER")) (str key) (str group) (str consumer);
    parse = parse_long_long;
  }

  unfoldable pub xack_request : Bytes → Bytes → Args D → Request D ℤ
  xack_request key group ids = record {
    name = codes "XACK";
    args = arg (str key) (arg (str group) ids);
    parse = parse_long_long;
  }

module _ {D : Type 0} ⦃F : Floating D⦄ ⦃J : JsonText D⦄ where
  unfoldable pub xreadgroup_request :
      Bytes → Bytes → Bytes → Bytes → Option ℤ → Option ℤ → Request D (Json D)
  unfolding string_args group_args
  xreadgroup_request key group consumer id count block = record {
    name = codes "XREADGROUP";
    args =
        args_4 (container (string_args (group_args group consumer count block)))
          (literal (codes "STREAMS")) (str key) (str id);
    parse = parse_json;
  }

  unfoldable pub xreadgroup_of_keys_request :
      List Bytes → Bytes → Bytes → List Bytes → Option ℤ → Option ℤ → Request D (Json D)
  unfolding string_args group_args
  xreadgroup_of_keys_request keys group consumer ids count block = record {
    name = codes "XREADGROUP";
    args =
        args_4 (container (string_args (group_args group consumer count block)))
          (literal (codes "STREAMS")) (container (string_args keys)) (container (string_args ids));
    parse = parse_json;
  }

  unfoldable pub xinfo_groups_request : Bytes → Request D (Json D)
  xinfo_groups_request key = record {
    name = codes "XINFO";
    args = args_2 (literal (codes "GROUPS")) (str key);
    parse = parse_json;
  }

  unfoldable pub xinfo_consumers_request : Bytes → Bytes → Request D (Json D)
  xinfo_consumers_request key group = record {
    name = codes "XINFO";
    args = args_3 (literal (codes "CONSUMERS")) (str key) (str group);
    parse = parse_json;
  }

  unfoldable pub xpending_request :
      Bytes → Bytes → Bytes → Bytes → ℤ → Option Bytes → Request D (Json D)
  unfolding string_args pending_args
  xpending_request key group start last count consumer = record {
    name = codes "XPENDING";
    args = args_1 (container (string_args (pending_args key group start last count consumer)));
    parse = parse_json;
  }
