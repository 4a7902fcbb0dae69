-- ===== src/Commands/Server/Requests.antt =====
-- server_commands.h: the requests of all methods.
use qbm_redis.Base.{
  ◌≡◌, refl, not, [], ◌∷◌, append-nil, append_assoc, Bytes, codes, arith, is_empty,
}
use qbm_redis.Floating.{Floating}
use qbm_redis.Reply.Json.{JsonText}
use qbm_redis.Commands.{AnyRequest, any, packed_request}
use qbm_redis.Wire.{Args, redis_count}
use qbm_redis.Commands.Server.{kill_args, unblock_args, usage_args, section_option}
use qbm_redis.Commands.Server.Clients
use qbm_redis.Commands.Server.Config
use qbm_redis.Commands.Server.Diagnosis
use qbm_redis.Commands.Server.Persistence
use qbm_redis.Wire.Words.{words, words_of}
use qbm_redis.Wire.Counting.{AllUniform}
use qbm_redis.Commands.Arguments.Laws.{
  push_if-clause, nonempty_args-AllUniform, nonempty_args-words, literal_args-AllUniform,
  literal_args-words, string_list-IsUniform, string_args-words, when, option_words,
  optional_arg-IsUniform, optional_arg-words,
}
use qbm_redis.Commands.Server.Syntax.{
  ServerCommand, client_kill, client_getname, client_setname, client_pause, client_tracking,
  client_unblock_func, client_list, config_get, config_set, config_resetstat, config_rewrite,
  command_info, command_count, command_getkeys, command_of_all, command_of_names, info, time, role,
  monitor, debug_object, debug_segfault, debug_sleep, memory_doctor, memory_help,
  memory_malloc_stats, memory_purge, memory_usage, memory_stats, slowlog_get, slowlog_len,
  slowlog_reset, latency_latest, latency_history, latency_reset, shutdown, slaveof, sync, psync,
  bgrewriteaof, bgsave, save, lastsave, dbsize, flushall, flushdb, syntax,
}

section_option-words : (s : Bytes) → option_words (section_option s) ≡ when (not (is_empty s)) s
unfolding section_option option_words when is_empty
section_option-words [] = refl
section_option-words (c ∷ s) = refl

module _ {D : Type 0} ⦃F : Floating D⦄ ⦃J : JsonText D⦄ where
  -- The request of the method.
  unfoldable pub requested : ServerCommand D → AnyRequest D
  unfolding Clients.client_kill_request Clients.client_getname_request
      Clients.client_setname_request Clients.client_pause_request Clients.client_tracking_request
      Clients.client_unblock_func_request Clients.client_list_request Config.config_get_request
      Config.config_set_request Config.config_resetstat_request Config.config_rewrite_request
      Config.command_info_request Config.command_count_request Config.command_getkeys_request
      Config.command_of_all_request Config.command_of_names_request Config.info_request
      Config.time_request Config.role_request Config.monitor_request Diagnosis.debug_object_request
      Diagnosis.debug_segfault_request Diagnosis.debug_sleep_request Diagnosis.memory_doctor_request
      Diagnosis.memory_help_request Diagnosis.memory_malloc_stats_request
      Diagnosis.memory_purge_request Diagnosis.memory_usage_request Diagnosis.memory_stats_request
      Diagnosis.slowlog_get_request Diagnosis.slowlog_len_request Diagnosis.slowlog_reset_request
      Diagnosis.latency_latest_request Diagnosis.latency_history_request
      Diagnosis.latency_reset_request Persistence.shutdown_request Persistence.slaveof_request
      Persistence.sync_request Persistence.psync_request Persistence.bgrewriteaof_request
      Persistence.bgsave_request Persistence.save_request Persistence.lastsave_request
      Persistence.dbsize_request Persistence.flushall_request Persistence.flushdb_request
  requested (client_kill addr id type skipme) =
      any (Clients.client_kill_request addr id type skipme)
  requested client_getname = any (Clients.client_getname_request)
  requested (client_setname name) = any (Clients.client_setname_request name)
  requested (client_pause timeout mode) = any (Clients.client_pause_request timeout mode)
  requested (client_tracking enabled) = any (Clients.client_tracking_request enabled)
  requested (client_unblock_func client_id error) =
      any (Clients.client_unblock_func_request client_id error)
  requested client_list = any (Clients.client_list_request)
  requested (config_get parameter) = any (Config.config_get_request parameter)
  requested (config_set parameter value) = any (Config.config_set_request parameter value)
  requested config_resetstat = any (Config.config_resetstat_request)
  requested config_rewrite = any (Config.config_rewrite_request)
  requested (command_info command_names) = any (Config.command_info_request command_names)
  requested command_count = any (Config.command_count_request)
  requested (command_getkeys command args) = any (Config.command_getkeys_request command args)
  requested command_of_all = any (Config.command_of_all_request)
  requested (command_of_names command_names) = any (Config.command_of_names_request command_names)
  requested (info section) = any (Config.info_request section)
  requested time = any (Config.time_request)
  requested role = any (Config.role_request)
  requested monitor = any (Config.monitor_request)
  requested (debug_object key) = any (Diagnosis.debug_object_request key)
  requested debug_segfault = any (Diagnosis.debug_segfault_request)
  requested (debug_sleep delay) = any (Diagnosis.debug_sleep_request delay)
  requested memory_doctor = any (Diagnosis.memory_doctor_request)
  requested memory_help = any (Diagnosis.memory_help_request)
  requested memory_malloc_stats = any (Diagnosis.memory_malloc_stats_request)
  requested memory_purge = any (Diagnosis.memory_purge_request)
  requested (memory_usage key samples) = any (Diagnosis.memory_usage_request key samples)
  requested memory_stats = any (Diagnosis.memory_stats_request)
  requested (slowlog_get count) = any (Diagnosis.slowlog_get_request count)
  requested slowlog_len = any (Diagnosis.slowlog_len_request)
  requested slowlog_reset = any (Diagnosis.slowlog_reset_request)
  requested latency_latest = any (Diagnosis.latency_latest_request)
  requested (latency_history event) = any (Diagnosis.latency_history_request event)
  requested (latency_reset event_name) = any (Diagnosis.latency_reset_request event_name)
  requested (shutdown save_option) = any (Persistence.shutdown_request save_option)
  requested (slaveof host port) = any (Persistence.slaveof_request host port)
  requested sync = any (Persistence.sync_request)
  requested (psync replication_id offset) = any (Persistence.psync_request replication_id offset)
  requested bgrewriteaof = any (Persistence.bgrewriteaof_request)
  requested (bgsave schedule) = any (Persistence.bgsave_request schedule)
  requested save = any (Persistence.save_request)
  requested lastsave = any (Persistence.lastsave_request)
  requested dbsize = any (Persistence.dbsize_request)
  requested (flushall async) = any (Persistence.flushall_request async)
  requested (flushdb async) = any (Persistence.flushdb_request async)

  -- The arguments of `put_in_pipe` that the method comes to.
  abbrev pub packed : ServerCommand D → Args D
  packed c = packed_request (requested c)

  -- What the method asks of its arguments.
  abbrev pub HasUniform : ServerCommand D → Type 0
  HasUniform _ = Unit

  pub packed-AllUniform : (c : ServerCommand D) → HasUniform c → AllUniform (packed c)
  unfolding requested redis_count
  packed-AllUniform (client_kill addr id type skipme) u =
      (tt, (tt, (string_list-IsUniform D (kill_args addr id type skipme), tt)))
  packed-AllUniform (client_unblock_func client_id error) u =
      (tt, (string_list-IsUniform D (unblock_args client_id error), tt))
  packed-AllUniform (command_info command_names) u =
      (tt, (tt, (string_list-IsUniform D command_names, tt)))
  packed-AllUniform (command_getkeys command args) u =
      (tt, (tt, (tt, (string_list-IsUniform D args, tt))))
  packed-AllUniform (command_of_names command_names) u =
      (tt, (tt, (string_list-IsUniform D command_names, tt)))
  packed-AllUniform (info section) u = (tt, (optional_arg-IsUniform D (section_option section), tt))
  packed-AllUniform (memory_usage key samples) u =
      (tt, (tt, (tt, (string_list-IsUniform D (usage_args samples), tt))))
  packed-AllUniform (latency_reset event_name) u = (tt, (tt, nonempty_args-AllUniform D event_name))
  packed-AllUniform (shutdown save_option) u = (tt, nonempty_args-AllUniform D save_option)
  packed-AllUniform (bgsave schedule) u =
      (tt, literal_args-AllUniform D schedule (codes "SCHEDULE"))
  packed-AllUniform (flushall async) u = (tt, literal_args-AllUniform D async (codes "ASYNC"))
  packed-AllUniform (flushdb async) u = (tt, literal_args-AllUniform D async (codes "ASYNC"))
  packed-AllUniform _ u = omega arith

  pub packed-syntax : (c : ServerCommand D) → HasUniform c → words_of (packed c) ≡ syntax c
  unfolding requested words syntax kill_args unblock_args usage_args
  packed-syntax (client_kill addr id type skipme) u =
      simp (string_args-words D, append-nil, push_if-clause, append_assoc)
  packed-syntax (client_unblock_func client_id error) u =
      simp (string_args-words D, append-nil, push_if-clause)
  packed-syntax (command_info command_names) u = simp (string_args-words D, append-nil)
  packed-syntax (command_getkeys command args) u = simp (string_args-words D, append-nil)
  packed-syntax (command_of_names command_names) u = simp (string_args-words D, append-nil)
  packed-syntax (info section) u = simp (optional_arg-words D, section_option-words, append-nil)
  packed-syntax (memory_usage key samples) u =
      simp (string_args-words D, append-nil, push_if-clause)
  packed-syntax (latency_reset event_name) u = simp (nonempty_args-words D event_name)
  packed-syntax (shutdown save_option) u = simp (nonempty_args-words D save_option)
  packed-syntax (bgsave schedule) u = simp (literal_args-words D schedule (codes "SCHEDULE"))
  packed-syntax (flushall async) u = simp (literal_args-words D async (codes "ASYNC"))
  packed-syntax (flushdb async) u = simp (literal_args-words D async (codes "ASYNC"))
  packed-syntax _ u = refl
