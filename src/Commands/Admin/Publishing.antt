-- ===== src/Commands/Admin/Publishing.antt =====
-- publish_commands.h: PUBLISH.
use qbm_redis.Base.{Bytes, codes}
use qbm_redis.Base.Int.{ℤ}
use qbm_redis.Reply.Scalars.{parse_long_long}
use qbm_redis.Commands.{Request, args_2}
use qbm_redis.Wire.{str}

module _ {D : Type 0} where
  unfoldable pub publish_request : Bytes → Bytes → Request D ℤ
  publish_request channel message = record {
    name = codes "PUBLISH";
    args = args_2 (str channel) (str message);
    parse = parse_long_long;
  }
