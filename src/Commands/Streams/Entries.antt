-- ===== src/Commands/Streams/Entries.antt =====
-- stream_commands.h: the commands on entries, and XREAD. The overload of xadd with a callback has a
-- result of another type: `xadd_func_request`. Those of xread for several keys:
-- `xread_of_keys_request`.
use qbm_redis.Base.{Bool, List, Option, Bytes, codes}
use qbm_redis.Base.Int.{ℤ}
use qbm_redis.Floating.{Floating}
use qbm_redis.Types.{StreamId}
use qbm_redis.Reply.Scalars.{parse_string, parse_long_long}
use qbm_redis.Reply.Streams.{parse_stream_id}
use qbm_redis.Reply.Json.{Json, JsonText, parse_json}
use qbm_redis.Commands.{Request, args_1, args_2, args_3, args_4}
use qbm_redis.Commands.Arguments.{string_args, pair_args}
use qbm_redis.Wire.{literal, str, container, Args, arg}
use qbm_redis.Commands.Streams.{trim_args, read_args, id_or_any}

module _ {D : Type 0} where
  unfoldable pub xadd_request : Bytes → List (Bytes × Bytes) → Option Bytes → Request D Bytes
  unfolding pair_args id_or_any
  xadd_request key entries id = record {
    name = codes "XADD";
    args = args_3 (str key) (str (id_or_any id)) (container (pair_args entries));
    parse = parse_string;
  }

  unfoldable pub xadd_func_request :
      Bytes → List (Bytes × Bytes) → Option Bytes → Request D StreamId
  unfolding pair_args id_or_any
  xadd_func_request key entries id = record {
    name = codes "XADD";
    args = args_3 (str key) (str (id_or_any id)) (container (pair_args entries));
    parse = parse_stream_id;
  }

  unfoldable pub xlen_request : Bytes → Request D ℤ
  xlen_request key = record {
    name = codes "XLEN";
    args = args_1 (str key);
    parse = parse_long_long;
  }

  unfoldable pub xdel_request : Bytes → Args D → Request D ℤ
  xdel_request key ids = record {
    name = codes "XDEL";
    args = arg (str key) ids;
    parse = parse_long_long;
  }

  unfoldable pub xtrim_request : Bytes → ℤ → Bool → Request D ℤ
  unfolding string_args trim_args
  xtrim_request key maxlen approximate = record {
    name = codes "XTRIM";
    args = args_1 (container (string_args (trim_args key maxlen approximate)));
    parse = parse_long_long;
  }

module _ {D : Type 0} ⦃F : Floating D⦄ ⦃J : JsonText D⦄ where
  unfoldable pub xread_request : Bytes → Bytes → Option ℤ → Option ℤ → Request D (Json D)
  unfolding string_args read_args
  xread_request key id count block = record {
    name = codes "XREAD";
    args =
        args_4 (container (string_args (read_args count block))) (literal (codes "STREAMS"))
          (str key) (str id);
    parse = parse_json;
  }

  unfoldable pub xread_of_keys_request :
      List Bytes → List Bytes → Option ℤ → Option ℤ → Request D (Json D)
  unfolding string_args read_args
  xread_of_keys_request keys ids count block = record {
    name = codes "XREAD";
    args =
        args_4 (container (string_args (read_args count block))) (literal (codes "STREAMS"))
          (container (string_args keys)) (container (string_args ids));
    parse = parse_json;
  }

  unfoldable pub xinfo_stream_request : Bytes → Request D (Json D)
  xinfo_stream_request key = record {
    name = codes "XINFO";
    args = args_2 (literal (codes "STREAM")) (str key);
    parse = parse_json;
  }

  unfoldable pub xinfo_help_request : Request D (Json D)
  xinfo_help_request = record {
    name = codes "XINFO";
    args = args_1 (literal (codes "HELP"));
    parse = parse_json;
  }
