-- ===== src/Commands/Server/Persistence.antt =====
-- server_commands.h: the commands on persistence and replication.
use qbm_redis.Base.{Bool, Bytes, codes}
use qbm_redis.Base.Int.{ℤ}
use qbm_redis.Types.{Status}
use qbm_redis.Reply.Scalars.{parse_long_long, parse_status}
use qbm_redis.Commands.{Request, args_2}
use qbm_redis.Commands.Arguments.{nonempty_args, literal_args}
use qbm_redis.Wire.{str, number, end}

module _ {D : Type 0} where
  unfoldable pub shutdown_request : Bytes → Request D Status
  unfolding nonempty_args
  shutdown_request save_option = record {
    name = codes "SHUTDOWN";
    args = nonempty_args save_option;
    parse = parse_status;
  }

  unfoldable pub slaveof_request : Bytes → ℤ → Request D Status
  slaveof_request host port = record {
    name = codes "SLAVEOF";
    args = args_2 (str host) (number port);
    parse = parse_status;
  }

  unfoldable pub sync_request : Request D Status
  sync_request = record { name = codes "SYNC"; args = end; parse = parse_status }

  unfoldable pub psync_request : Bytes → ℤ → Request D Status
  psync_request replication_id offset = record {
    name = codes "PSYNC";
    args = args_2 (str replication_id) (number offset);
    parse = parse_status;
  }

  unfoldable pub bgrewriteaof_request : Request D Status
  bgrewriteaof_request = record { name = codes "BGREWRITEAOF"; args = end; parse = parse_status }

  unfoldable pub bgsave_request : Bool → Request D Status
  unfolding literal_args
  bgsave_request schedule = record {
    name = codes "BGSAVE";
    args = literal_args schedule (codes "SCHEDULE");
    parse = parse_status;
  }

  unfoldable pub save_request : Request D Status
  save_request = record { name = codes "SAVE"; args = end; parse = parse_status }

  unfoldable pub lastsave_request : Request D ℤ
  lastsave_request = record { name = codes "LASTSAVE"; args = end; parse = parse_long_long }

  unfoldable pub dbsize_request : Request D ℤ
  dbsize_request = record { name = codes "DBSIZE"; args = end; parse = parse_long_long }

  unfoldable pub flushall_request : Bool → Request D Status
  unfolding literal_args
  flushall_request async = record {
    name = codes "FLUSHALL";
    args = literal_args async (codes "ASYNC");
    parse = parse_status;
  }

  unfoldable pub flushdb_request : Bool → Request D Status
  unfolding literal_args
  flushdb_request async = record {
    name = codes "FLUSHDB";
    args = literal_args async (codes "ASYNC");
    parse = parse_status;
  }
