-- ===== src/Commands/Values.antt =====
-- bitmap_commands.h, hyperloglog_commands.h, geo_commands.h: the commands on bits, on cardinalities
-- and on positions. `x_request` is the command that the method `x` asks for.
pub mod Bitmaps
pub mod HyperLogLog
pub mod Geo
pub mod Syntax
pub mod Requests
pub mod Replies
use qbm_redis.Base.{Bool}
use qbm_redis.Base.Int.{ℤ, pos, eqb_ℤ}

-- `….result() == 1`, of the overloads of getbit and setbit that wait.
unfoldable pub is_one : ℤ → Bool
unfolding eqb_ℤ
is_one n = eqb_ℤ n (pos 1)
