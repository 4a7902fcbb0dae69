-- ===== src/Floating.antt =====
-- `double` and what the C++ standard library does with it, as an interface: there are no floating
-- point numbers here, and the code only prints, reads and compares them.
use qbm_redis.Base.{Bool, Bytes}
use qbm_redis.Decimal.{Numeric}

pub record Floating (D : Type 0) : Type 0 where
  -- `std::to_string(double)`
  pub show : D → Bytes
  -- `std::stod`, with its two exceptions
  pub stod : Bytes → Numeric D
  -- `double{}`
  pub zero_value : D
  -- `operator==` and `operator<`
  pub same : D → D → Bool
  pub less : D → D → Bool
