-- ===== src/Commands/Server/Replies.antt =====
-- server_commands.h: what the `parse` of each method throws.
use qbm_redis.Floating.{Floating}
use qbm_redis.Outcome.{IsCaught}
use qbm_redis.Reply.{RedisReply}
use qbm_redis.Reply.Scalars.{parse_string}
use qbm_redis.Reply.Json.{JsonText}
use qbm_redis.Reply.Containers.{parse_sequence}
use qbm_redis.Commands.{parse_request}
use qbm_redis.Reply.Scalars.Laws.{
  parse_string-IsCaught, parse_long_long-IsCaught, parse_status-IsCaught,
}
use qbm_redis.Reply.Containers.Laws.{parse_optional-Caught, parse_sequence-Caught}
use qbm_redis.Reply.Json.Laws.{parse_json-IsCaught}
use qbm_redis.Commands.Server.Syntax.{
  ServerCommand, client_kill, client_getname, client_setname, client_pause, client_tracking,
  client_unblock_func, client_list, config_get, config_set, config_resetstat, config_rewrite,
  command_info, command_count, command_getkeys, command_of_all, command_of_names, info, time, role,
  monitor, debug_object, debug_segfault, debug_sleep, memory_doctor, memory_help,
  memory_malloc_stats, memory_purge, memory_usage, memory_stats, slowlog_get, slowlog_len,
  slowlog_reset, latency_latest, latency_history, latency_reset, shutdown, slaveof, sync, psync,
  bgrewriteaof, bgsave, save, lastsave, dbsize, flushall, flushdb,
}
use qbm_redis.Commands.Server.Requests.{requested}

module _ {D : Type 0} ⦃F : Floating D⦄ ⦃J : JsonText D⦄ where
  -- The `parse` of every method gives a value or a `ProtoError`.
  pub requested-IsCaught :
      (c : ServerCommand D) (r : RedisReply) → IsCaught (parse_request (requested c) r)
  unfolding requested
  requested-IsCaught (client_kill addr id type skipme) r = parse_status-IsCaught r
  requested-IsCaught client_getname r = parse_optional-Caught parse_string parse_string-IsCaught r
  requested-IsCaught (client_setname name) r = parse_status-IsCaught r
  requested-IsCaught (client_pause timeout mode) r = parse_status-IsCaught r
  requested-IsCaught (client_tracking enabled) r = parse_status-IsCaught r
  requested-IsCaught (client_unblock_func client_id error) r = parse_status-IsCaught r
  requested-IsCaught client_list r = parse_json-IsCaught D r
  requested-IsCaught (config_get parameter) r =
      parse_sequence-Caught parse_string parse_string-IsCaught r
  requested-IsCaught (config_set parameter value) r = parse_status-IsCaught r
  requested-IsCaught config_resetstat r = parse_status-IsCaught r
  requested-IsCaught config_rewrite r = parse_status-IsCaught r
  requested-IsCaught (command_info command_names) r =
      parse_sequence-Caught (parse_sequence parse_string)
        (parse_sequence-Caught parse_string parse_string-IsCaught) r
  requested-IsCaught command_count r = parse_long_long-IsCaught r
  requested-IsCaught (command_getkeys command args) r =
      parse_sequence-Caught parse_string parse_string-IsCaught r
  requested-IsCaught command_of_all r = parse_json-IsCaught D r
  requested-IsCaught (command_of_names command_names) r = parse_json-IsCaught D r
  requested-IsCaught (info section) r = parse_json-IsCaught D r
  requested-IsCaught time r = parse_sequence-Caught parse_string parse_string-IsCaught r
  requested-IsCaught role r = parse_sequence-Caught parse_string parse_string-IsCaught r
  requested-IsCaught monitor r = parse_string-IsCaught r
  requested-IsCaught (debug_object key) r = parse_string-IsCaught r
  requested-IsCaught debug_segfault r = parse_status-IsCaught r
  requested-IsCaught (debug_sleep delay) r = parse_status-IsCaught r
  requested-IsCaught memory_doctor r = parse_string-IsCaught r
  requested-IsCaught memory_help r = parse_sequence-Caught parse_string parse_string-IsCaught r
  requested-IsCaught memory_malloc_stats r = parse_string-IsCaught r
  requested-IsCaught memory_purge r = parse_status-IsCaught r
  requested-IsCaught (memory_usage key samples) r = parse_long_long-IsCaught r
  requested-IsCaught memory_stats r = parse_json-IsCaught D r
  requested-IsCaught (slowlog_get count) r = parse_json-IsCaught D r
  requested-IsCaught slowlog_len r = parse_long_long-IsCaught r
  requested-IsCaught slowlog_reset r = parse_status-IsCaught r
  requested-IsCaught latency_latest r = parse_json-IsCaught D r
  requested-IsCaught (latency_history event) r = parse_json-IsCaught D r
  requested-IsCaught (latency_reset event_name) r = parse_status-IsCaught r
  requested-IsCaught (shutdown save_option) r = parse_status-IsCaught r
  requested-IsCaught (slaveof host port) r = parse_status-IsCaught r
  requested-IsCaught sync r = parse_status-IsCaught r
  requested-IsCaught (psync replication_id offset) r = parse_status-IsCaught r
  requested-IsCaught bgrewriteaof r = parse_status-IsCaught r
  requested-IsCaught (bgsave schedule) r = parse_status-IsCaught r
  requested-IsCaught save r = parse_status-IsCaught r
  requested-IsCaught lastsave r = parse_long_long-IsCaught r
  requested-IsCaught dbsize r = parse_long_long-IsCaught r
  requested-IsCaught (flushall async) r = parse_status-IsCaught r
  requested-IsCaught (flushdb async) r = parse_status-IsCaught r
