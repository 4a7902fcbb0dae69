-- ===== src/Commands/Server/Diagnosis.antt =====
-- server_commands.h: the commands for debugging, memory, the slow log and latency.
use qbm_redis.Base.{List, Bytes, codes}
use qbm_redis.Base.Int.{ℤ}
use qbm_redis.Floating.{Floating}
use qbm_redis.Types.{Status}
use qbm_redis.Reply.Scalars.{parse_string, parse_long_long, parse_status}
use qbm_redis.Reply.Json.{Json, JsonText, parse_json}
use qbm_redis.Reply.Containers.{parse_sequence}
use qbm_redis.Commands.{Request, args_1, args_2, args_3}
use qbm_redis.Commands.Arguments.{string_args, nonempty_args}
use qbm_redis.Wire.{literal, str, number, floating, container, arg}
use qbm_redis.Commands.Server.{usage_args}

module _ {D : Type 0} where
  unfoldable pub debug_object_request : Bytes → Request D Bytes
  debug_object_request key = record {
    name = codes "DEBUG";
    args = args_2 (literal (codes "OBJECT")) (str key);
    parse = parse_string;
  }

  unfoldable pub debug_segfault_request : Request D Status
  debug_segfault_request = record {
    name = codes "DEBUG";
    args = args_1 (literal (codes "SEGFAULT"));
    parse = parse_status;
  }

  unfoldable pub debug_sleep_request : D → Request D Status
  debug_sleep_request delay = record {
    name = codes "DEBUG";
    args = args_2 (literal (codes "SLEEP")) (floating delay);
    parse = parse_status;
  }

  unfoldable pub memory_doctor_request : Request D Bytes
  memory_doctor_request = record {
    name = codes "MEMORY";
    args = args_1 (literal (codes "DOCTOR"));
    parse = parse_string;
  }

  unfoldable pub memory_help_request : Request D (List Bytes)
  memory_help_request = record {
    name = codes "MEMORY";
    args = args_1 (literal (codes "HELP"));
    parse = parse_sequence parse_string;
  }

  unfoldable pub memory_malloc_stats_request : Request D Bytes
  memory_malloc_stats_request = record {
    name = codes "MEMORY";
    args = args_1 (literal (codes "MALLOC-STATS"));
    parse = parse_string;
  }

  unfoldable pub memory_purge_request : Request D Status
  memory_purge_request = record {
    name = codes "MEMORY";
    args = args_1 (literal (codes "PURGE"));
    parse = parse_status;
  }

  unfoldable pub memory_usage_request : Bytes → ℤ → Request D ℤ
  unfolding string_args usage_args
  memory_usage_request key samples = record {
    name = codes "MEMORY";
    args =
        args_3 (literal (codes "USAGE")) (str key) (container (string_args (usage_args samples)));
    parse = parse_long_long;
  }

module _ {D : Type 0} ⦃F : Floating D⦄ ⦃J : JsonText D⦄ where
  unfoldable pub memory_stats_request : Request D (Json D)
  memory_stats_request = record {
    name = codes "MEMORY";
    args = args_1 (literal (codes "STATS"));
    parse = parse_json;
  }

  unfoldable pub slowlog_get_request : ℤ → Request D (Json D)
  slowlog_get_request count = record {
    name = codes "SLOWLOG";
    args = args_2 (literal (codes "GET")) (number count);
    parse = parse_json;
  }

module _ {D : Type 0} where
  unfoldable pub slowlog_len_request : Request D ℤ
  slowlog_len_request = record {
    name = codes "SLOWLOG";
    args = args_1 (literal (codes "LEN"));
    parse = parse_long_long;
  }

  unfoldable pub slowlog_reset_request : Request D Status
  slowlog_reset_request = record {
    name = codes "SLOWLOG";
    args = args_1 (literal (codes "RESET"));
    parse = parse_status;
  }

module _ {D : Type 0} ⦃F : Floating D⦄ ⦃J : JsonText D⦄ where
  unfoldable pub latency_latest_request : Request D (Json D)
  latency_latest_request = record {
    name = codes "LATENCY";
    args = args_1 (literal (codes "LATEST"));
    parse = parse_json;
  }

  unfoldable pub latency_history_request : Bytes → Request D (Json D)
  latency_history_request event = record {
    name = codes "LATENCY";
    args = args_2 (literal (codes "HISTORY")) (str event);
    parse = parse_json;
  }

module _ {D : Type 0} where
  unfoldable pub latency_reset_request : Bytes → Request D Status
  unfolding nonempty_args
  latency_reset_request event_name = record {
    name = codes "LATENCY";
    args = arg (literal (codes "RESET")) (nonempty_args event_name);
    parse = parse_status;
  }
