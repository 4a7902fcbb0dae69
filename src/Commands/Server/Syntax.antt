-- ===== src/Commands/Server/Syntax.antt =====
-- server_commands.h: the server commands against the syntax that the server documents.
use qbm_redis.Base.{Bool, not, List, [], ◌∷◌, ◌++◌, Bytes, codes, is_empty}
use qbm_redis.Base.Int.{ℤ, pos, ltb_ℤ, eqb_ℤ}
use qbm_redis.Decimal.{to_string}
use qbm_redis.Floating.{Floating}
use qbm_redis.Commands.Server.{on_off}
use qbm_redis.Commands.Arguments.Laws.{clause, when}

-- A call of a method, with its arguments.
pub data ServerCommand (D : Type 0) : Type 0 where
  client_kill : Bytes → ℤ → Bytes → Bool → ServerCommand D
  client_getname : ServerCommand D
  client_setname : Bytes → ServerCommand D
  client_pause : ℤ → Bytes → ServerCommand D
  client_tracking : Bool → ServerCommand D
  client_unblock_func : ℤ → Bool → ServerCommand D
  client_list : ServerCommand D
  config_get : Bytes → ServerCommand D
  config_set : Bytes → Bytes → ServerCommand D
  config_resetstat : ServerCommand D
  config_rewrite : ServerCommand D
  command_info : List Bytes → ServerCommand D
  command_count : ServerCommand D
  command_getkeys : Bytes → List Bytes → ServerCommand D
  command_of_all : ServerCommand D
  command_of_names : List Bytes → ServerCommand D
  info : Bytes → ServerCommand D
  time : ServerCommand D
  role : ServerCommand D
  monitor : ServerCommand D
  debug_object : Bytes → ServerCommand D
  debug_segfault : ServerCommand D
  debug_sleep : D → ServerCommand D
  memory_doctor : ServerCommand D
  memory_help : ServerCommand D
  memory_malloc_stats : ServerCommand D
  memory_purge : ServerCommand D
  memory_usage : Bytes → ℤ → ServerCommand D
  memory_stats : ServerCommand D
  slowlog_get : ℤ → ServerCommand D
  slowlog_len : ServerCommand D
  slowlog_reset : ServerCommand D
  latency_latest : ServerCommand D
  latency_history : Bytes → ServerCommand D
  latency_reset : Bytes → ServerCommand D
  shutdown : Bytes → ServerCommand D
  slaveof : Bytes → ℤ → ServerCommand D
  sync : ServerCommand D
  psync : Bytes → ℤ → ServerCommand D
  bgrewriteaof : ServerCommand D
  bgsave : Bool → ServerCommand D
  save : ServerCommand D
  lastsave : ServerCommand D
  dbsize : ServerCommand D
  flushall : Bool → ServerCommand D
  flushdb : Bool → ServerCommand D

module _ {D : Type 0} ⦃F : Floating D⦄ where
  -- The words of the documented syntax.
  unfoldable pub syntax : ServerCommand D → List Bytes
  unfolding when clause
  syntax (client_kill addr id type skipme) =
      codes "CLIENT" ∷ codes "KILL" ∷ clause (not (is_empty addr)) (codes "ADDR" ∷ addr ∷ [])
      ++ (clause (not (eqb_ℤ id (pos 0))) (codes "ID" ∷ to_string id ∷ [])
          ++ (clause (not (is_empty type)) (codes "TYPE" ∷ type ∷ [])
              ++ clause skipme (codes "SKIPME" ∷ codes "yes" ∷ [])))
  syntax client_getname = codes "CLIENT" ∷ codes "GETNAME" ∷ []
  syntax (client_setname name) = codes "CLIENT" ∷ codes "SETNAME" ∷ name ∷ []
  syntax (client_pause timeout mode) =
      codes "CLIENT" ∷ codes "PAUSE" ∷ to_string timeout ∷ mode ∷ []
  syntax (client_tracking enabled) = codes "CLIENT" ∷ codes "TRACKING" ∷ (on_off enabled) ∷ []
  syntax (client_unblock_func client_id error) =
      codes "CLIENT" ∷ codes "UNBLOCK" ∷ to_string client_id ∷ clause error (codes "ERROR" ∷ [])
  syntax client_list = codes "CLIENT" ∷ codes "LIST" ∷ []
  syntax (config_get parameter) = codes "CONFIG" ∷ codes "GET" ∷ parameter ∷ []
  syntax (config_set parameter value) = codes "CONFIG" ∷ codes "SET" ∷ parameter ∷ value ∷ []
  syntax config_resetstat = codes "CONFIG" ∷ codes "RESETSTAT" ∷ []
  syntax config_rewrite = codes "CONFIG" ∷ codes "REWRITE" ∷ []
  syntax (command_info command_names) = codes "COMMAND" ∷ codes "INFO" ∷ command_names
  syntax command_count = codes "COMMAND" ∷ codes "COUNT" ∷ []
  syntax (command_getkeys command args) = codes "COMMAND" ∷ codes "GETKEYS" ∷ command ∷ args
  syntax command_of_all = codes "COMMAND" ∷ []
  syntax (command_of_names command_names) = codes "COMMAND" ∷ codes "INFO" ∷ command_names
  syntax (info section) = codes "INFO" ∷ when (not (is_empty section)) section
  syntax time = codes "TIME" ∷ []
  syntax role = codes "ROLE" ∷ []
  syntax monitor = codes "MONITOR" ∷ []
  syntax (debug_object key) = codes "DEBUG" ∷ codes "OBJECT" ∷ key ∷ []
  syntax debug_segfault = codes "DEBUG" ∷ codes "SEGFAULT" ∷ []
  syntax (debug_sleep delay) = codes "DEBUG" ∷ codes "SLEEP" ∷ F.show delay ∷ []
  syntax memory_doctor = codes "MEMORY" ∷ codes "DOCTOR" ∷ []
  syntax memory_help = codes "MEMORY" ∷ codes "HELP" ∷ []
  syntax memory_malloc_stats = codes "MEMORY" ∷ codes "MALLOC-STATS" ∷ []
  syntax memory_purge = codes "MEMORY" ∷ codes "PURGE" ∷ []
  syntax (memory_usage key samples) =
      codes "MEMORY"
      ∷ codes "USAGE"
      ∷ key
      ∷ clause (ltb_ℤ (pos 0) samples) (codes "SAMPLES" ∷ to_string samples ∷ [])
  syntax memory_stats = codes "MEMORY" ∷ codes "STATS" ∷ []
  syntax (slowlog_get count) = codes "SLOWLOG" ∷ codes "GET" ∷ to_string count ∷ []
  syntax slowlog_len = codes "SLOWLOG" ∷ codes "LEN" ∷ []
  syntax slowlog_reset = codes "SLOWLOG" ∷ codes "RESET" ∷ []
  syntax latency_latest = codes "LATENCY" ∷ codes "LATEST" ∷ []
  syntax (latency_history event) = codes "LATENCY" ∷ codes "HISTORY" ∷ event ∷ []
  syntax (latency_reset event_name) =
      codes "LATENCY" ∷ codes "RESET" ∷ when (not (is_empty event_name)) event_name
  syntax (shutdown save_option) = codes "SHUTDOWN" ∷ when (not (is_empty save_option)) save_option
  syntax (slaveof host port) = codes "SLAVEOF" ∷ host ∷ to_string port ∷ []
  syntax sync = codes "SYNC" ∷ []
  syntax (psync replication_id offset) = codes "PSYNC" ∷ replication_id ∷ to_string offset ∷ []
  syntax bgrewriteaof = codes "BGREWRITEAOF" ∷ []
  syntax (bgsave schedule) = codes "BGSAVE" ∷ when schedule (codes "SCHEDULE")
  syntax save = codes "SAVE" ∷ []
  syntax lastsave = codes "LASTSAVE" ∷ []
  syntax dbsize = codes "DBSIZE" ∷ []
  syntax (flushall async) = codes "FLUSHALL" ∷ when async (codes "ASYNC")
  syntax (flushdb async) = codes "FLUSHDB" ∷ when async (codes "ASYNC")
