-- ===== src/Commands/Keys.antt =====
-- key_commands.h: the key commands. `x_request` is the command that the method `x` asks for; an
-- overload for a duration or a point in time passes its count on.
pub mod Syntax
pub mod Requests
pub mod Replies
use qbm_redis.Base.{
  ℕ, zero, suc, ◌≡◌, refl, ap, ◌∙◌, Bool, true, false, not, ◌||◌, ◌&&◌, List, [], ◌∷◌, ◌++◌,
  append-nil, append_assoc, Option, none, some, Bytes, codes, arith, length, is_empty, same_bytes,
  ◌==◌, if◌then◌else◌,
}
use qbm_redis.Base.Int.{ℤ, pos, negsuc, ltb_ℤ, eqb_ℤ}
use qbm_redis.Decimal.{to_string}
use qbm_redis.Floating.{Floating}
use qbm_redis.Types.{
  Status, Scan, StreamId, ScoreMember, GeoPos, ClusterNode, MemoryInfo, UpdateType, always, exist,
  not_exist, Aggregation, GeoUnit, LimitOptions, BitOp,
}
use qbm_redis.Interval.{Interval, aggregation_text, update_type_text, geo_unit_text}
use qbm_redis.Outcome.{Outcome, ok, ◌>>=◌, IsCaught}
use qbm_redis.Reply.{RedisReply}
use qbm_redis.Reply.Scalars.{parse_string, parse_long_long, parse_bool, parse_double, parse_status}
use qbm_redis.Reply.Records.{parse_score_members, parse_geo_pos}
use qbm_redis.Reply.Cluster.{parse_cluster_node}
use qbm_redis.Reply.Streams.{parse_stream_id}
use qbm_redis.Reply.Memory.{parse_memory_info}
use qbm_redis.Reply.Json.{Json, JsonText, parse_json}
use qbm_redis.Reply.Containers.{
  parse_optional, parse_sequence, parse_scan, parse_pair, parse_tuple, parse_map,
}
use qbm_redis.Commands.{
  Request, Call, unless, args_1, args_2, args_3, args_4, args_5, AnyRequest, any, packed_request,
  parse_request,
}
use qbm_redis.Commands.Arguments.{
  string_args, optional_arg, flag, push_if, insert_option, append_args, number_args, nonempty_args,
  literal_args, bit_of, pair_args, member_args, floating_args, parse_optional_string,
}
use qbm_redis.Wire.{
  Arg, literal, c_str, str, number, floating, container, Args, end, arg, size, redis_count,
  put_in_pipe,
}

module _ {D : Type 0} where
  unfoldable pub del_request : Args D → Request D ℤ
  del_request names = record { name = codes "DEL"; args = names; parse = parse_long_long }

  unfoldable pub dump_request : Bytes → Request D (Option Bytes)
  dump_request key = record {
    name = codes "DUMP";
    args = args_1 (str key);
    parse = parse_optional_string;
  }

  unfoldable pub exists_request : Args D → Request D ℤ
  exists_request names = record { name = codes "EXISTS"; args = names; parse = parse_long_long }

  unfoldable pub expire_request : Bytes → ℤ → Request D Bool
  expire_request key timeout = record {
    name = codes "EXPIRE";
    args = args_2 (str key) (number timeout);
    parse = parse_bool;
  }

  unfoldable pub expireat_request : Bytes → ℤ → Request D Bool
  expireat_request key timestamp = record {
    name = codes "EXPIREAT";
    args = args_2 (str key) (number timestamp);
    parse = parse_bool;
  }

  unfoldable pub keys_request : Bytes → Request D (List Bytes)
  keys_request pattern = record {
    name = codes "KEYS";
    args = args_1 (str pattern);
    parse = parse_sequence parse_string;
  }

  unfoldable pub move_request : Bytes → ℤ → Request D Bool
  move_request key destination_db = record {
    name = codes "MOVE";
    args = args_2 (str key) (number destination_db);
    parse = parse_bool;
  }

  unfoldable pub persist_request : Bytes → Request D Bool
  persist_request key = record {
    name = codes "PERSIST";
    args = args_1 (str key);
    parse = parse_bool;
  }

  unfoldable pub pexpire_request : Bytes → ℤ → Request D Bool
  pexpire_request key timeout = record {
    name = codes "PEXPIRE";
    args = args_2 (str key) (number timeout);
    parse = parse_bool;
  }

  unfoldable pub pexpireat_request : Bytes → ℤ → Request D Bool
  pexpireat_request key timestamp = record {
    name = codes "PEXPIREAT";
    args = args_2 (str key) (number timestamp);
    parse = parse_bool;
  }

  unfoldable pub pttl_request : Bytes → Request D ℤ
  pttl_request key = record {
    name = codes "PTTL";
    args = args_1 (str key);
    parse = parse_long_long;
  }

  unfoldable pub randomkey_request : Request D (Option Bytes)
  randomkey_request = record { name = codes "RANDOMKEY"; args = end; parse = parse_optional_string }

  unfoldable pub rename_request : Bytes → Bytes → Request D Status
  rename_request key new_key = record {
    name = codes "RENAME";
    args = args_2 (str key) (str new_key);
    parse = parse_status;
  }

  unfoldable pub renamenx_request : Bytes → Bytes → Request D Bool
  renamenx_request key new_key = record {
    name = codes "RENAMENX";
    args = args_2 (str key) (str new_key);
    parse = parse_bool;
  }

  unfoldable pub restore_request : Bytes → Bytes → ℤ → Bool → Request D Status
  unfolding string_args push_if
  restore_request key val time replace = record {
    name = codes "RESTORE";
    args =
        args_4 (str key) (number time) (str val)
          (container (string_args (push_if replace (codes "REPLACE" ∷ []) [])));
    parse = parse_status;
  }

  unfoldable pub scan_request : ℤ → Bytes → ℤ → Request D (Scan (List Bytes))
  scan_request cursor pattern count = record {
    name = codes "SCAN";
    args =
        args_5 (number cursor) (literal (codes "MATCH")) (str pattern) (literal (codes "COUNT"))
          (number count);
    parse = parse_scan (parse_sequence parse_string);
  }

  unfoldable pub touch_request : Args D → Request D ℤ
  touch_request names = record { name = codes "TOUCH"; args = names; parse = parse_long_long }

  unfoldable pub ttl_request : Bytes → Request D ℤ
  ttl_request key = record { name = codes "TTL"; args = args_1 (str key); parse = parse_long_long }

  unfoldable pub type_request : Bytes → Request D Bytes
  type_request key = record { name = codes "TYPE"; args = args_1 (str key); parse = parse_string }

  unfoldable pub unlink_request : Args D → Request D ℤ
  unlink_request names = record { name = codes "UNLINK"; args = names; parse = parse_long_long }

  unfoldable pub wait_request : ℤ → ℤ → Request D ℤ
  wait_request num_slaves timeout = record {
    name = codes "WAIT";
    args = args_2 (number num_slaves) (number timeout);
    parse = parse_long_long;
  }
