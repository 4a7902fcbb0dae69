-- ===== src/Commands/Admin/Connection.antt =====
-- connection_commands.h: the connection commands.
use qbm_redis.Base.{Bytes, codes}
use qbm_redis.Base.Int.{ℤ}
use qbm_redis.Types.{Status}
use qbm_redis.Reply.Scalars.{parse_string, parse_status}
use qbm_redis.Commands.{Request, args_1, args_2}
use qbm_redis.Wire.{str, number, end}

module _ {D : Type 0} where
  unfoldable pub auth_request : Bytes → Request D Status
  auth_request password = record {
    name = codes "AUTH";
    args = args_1 (str password);
    parse = parse_status;
  }

  unfoldable pub auth_with_user_request : Bytes → Bytes → Request D Status
  auth_with_user_request user password = record {
    name = codes "AUTH";
    args = args_2 (str user) (str password);
    parse = parse_status;
  }

  unfoldable pub echo_request : Bytes → Request D Bytes
  echo_request message = record {
    name = codes "ECHO";
    args = args_1 (str message);
    parse = parse_string;
  }

  unfoldable pub ping_request : Request D Bytes
  ping_request = record { name = codes "PING"; args = end; parse = parse_string }

  unfoldable pub ping_with_message_request : Bytes → Request D Bytes
  ping_with_message_request message = record {
    name = codes "PING";
    args = args_1 (str message);
    parse = parse_string;
  }

  unfoldable pub quit_request : Request D Status
  quit_request = record { name = codes "QUIT"; args = end; parse = parse_status }

  unfoldable pub select_request : ℤ → Request D Status
  select_request index = record {
    name = codes "SELECT";
    args = args_1 (number index);
    parse = parse_status;
  }

  unfoldable pub swapdb_request : ℤ → ℤ → Request D Status
  swapdb_request index1 index2 = record {
    name = codes "SWAPDB";
    args = args_2 (number index1) (number index2);
    parse = parse_status;
  }
