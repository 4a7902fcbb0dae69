-- ===== src/Commands/Values/HyperLogLog.antt =====
-- hyperloglog_commands.h: the HyperLogLog commands.
use qbm_redis.Base.{Bool, Bytes, codes}
use qbm_redis.Base.Int.{ℤ}
use qbm_redis.Types.{Status}
use qbm_redis.Reply.Scalars.{parse_long_long, parse_bool, parse_status}
use qbm_redis.Commands.{Request}
use qbm_redis.Wire.{str, Args, arg}

module _ {D : Type 0} where
  unfoldable pub pfadd_request : Bytes → Args D → Request D Bool
  pfadd_request key elements = record {
    name = codes "PFADD";
    args = arg (str key) elements;
    parse = parse_bool;
  }

  unfoldable pub pfcount_request : Args D → Request D ℤ
  pfcount_request keys = record { name = codes "PFCOUNT"; args = keys; parse = parse_long_long }

  unfoldable pub pfmerge_request : Bytes → Args D → Request D Status
  pfmerge_request destination keys = record {
    name = codes "PFMERGE";
    args = arg (str destination) keys;
    parse = parse_status;
  }
