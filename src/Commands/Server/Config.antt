-- ===== src/Commands/Server/Config.antt =====
-- server_commands.h: the commands on the configuration and on commands, and INFO, TIME, ROLE,
-- MONITOR.
use qbm_redis.Base.{List, Bytes, codes}
use qbm_redis.Base.Int.{ℤ}
use qbm_redis.Floating.{Floating}
use qbm_redis.Types.{Status}
use qbm_redis.Reply.Scalars.{parse_string, parse_long_long, parse_status}
use qbm_redis.Reply.Json.{Json, JsonText, parse_json}
use qbm_redis.Reply.Containers.{parse_sequence}
use qbm_redis.Commands.{Request, args_1, args_2, args_3}
use qbm_redis.Commands.Arguments.{string_args, optional_arg}
use qbm_redis.Wire.{literal, str, container, end}
use qbm_redis.Commands.Server.{section_option}

module _ {D : Type 0} where
  unfoldable pub config_get_request : Bytes → Request D (List Bytes)
  config_get_request parameter = record {
    name = codes "CONFIG";
    args = args_2 (literal (codes "GET")) (str parameter);
    parse = parse_sequence parse_string;
  }

  unfoldable pub config_set_request : Bytes → Bytes → Request D Status
  config_set_request parameter value = record {
    name = codes "CONFIG";
    args = args_3 (literal (codes "SET")) (str parameter) (str value);
    parse = parse_status;
  }

  unfoldable pub config_resetstat_request : Request D Status
  config_resetstat_request = record {
    name = codes "CONFIG";
    args = args_1 (literal (codes "RESETSTAT"));
    parse = parse_status;
  }

  unfoldable pub config_rewrite_request : Request D Status
  config_rewrite_request = record {
    name = codes "CONFIG";
    args = args_1 (literal (codes "REWRITE"));
    parse = parse_status;
  }

  unfoldable pub command_info_request : List Bytes → Request D (List (List Bytes))
  unfolding string_args
  command_info_request command_names = record {
    name = codes "COMMAND";
    args = args_2 (literal (codes "INFO")) (container (string_args command_names));
    parse = parse_sequence (parse_sequence parse_string);
  }

  unfoldable pub command_count_request : Request D ℤ
  command_count_request = record {
    name = codes "COMMAND";
    args = args_1 (literal (codes "COUNT"));
    parse = parse_long_long;
  }

  unfoldable pub command_getkeys_request : Bytes → List Bytes → Request D (List Bytes)
  unfolding string_args
  command_getkeys_request command args = record {
    name = codes "COMMAND";
    args = args_3 (literal (codes "GETKEYS")) (str command) (container (string_args args));
    parse = parse_sequence parse_string;
  }

module _ {D : Type 0} ⦃F : Floating D⦄ ⦃J : JsonText D⦄ where
  unfoldable pub command_of_all_request : Request D (Json D)
  command_of_all_request = record { name = codes "COMMAND"; args = end; parse = parse_json }

  unfoldable pub command_of_names_request : List Bytes → Request D (Json D)
  unfolding string_args
  command_of_names_request command_names = record {
    name = codes "COMMAND";
    args = args_2 (literal (codes "INFO")) (container (string_args command_names));
    parse = parse_json;
  }

  unfoldable pub command_stats_request : Request D (Json D)
  command_stats_request = record {
    name = codes "COMMAND";
    args = args_1 (literal (codes "STATS"));
    parse = parse_json;
  }

  unfoldable pub info_request : Bytes → Request D (Json D)
  unfolding optional_arg
  info_request section = record {
    name = codes "INFO";
    args = args_1 (optional_arg (section_option section));
    parse = parse_json;
  }

module _ {D : Type 0} where
  unfoldable pub time_request : Request D (List Bytes)
  time_request = record { name = codes "TIME"; args = end; parse = parse_sequence parse_string }

  unfoldable pub role_request : Request D (List Bytes)
  role_request = record { name = codes "ROLE"; args = end; parse = parse_sequence parse_string }

  unfoldable pub monitor_request : Request D Bytes
  monitor_request = record { name = codes "MONITOR"; args = end; parse = parse_string }
