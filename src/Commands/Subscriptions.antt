-- ===== src/Commands/Subscriptions.antt =====
-- subscription_commands.h: the commands of a subscriber. `x_request` is the command that the method
-- `x` asks for, and `x_of_request` the one of its overload for several channels or patterns.
pub mod Channels
pub mod Patterns
pub mod Syntax
pub mod Requests
pub mod Confirmation
use qbm_redis.Base.{List, [], ◌∷◌, none, Bytes}
use qbm_redis.Base.Int.{pos}
use qbm_redis.Types.{Subscription}
use qbm_redis.Wire.{container, Args, end, arg}
use qbm_redis.Commands.Arguments.{string_args}

-- `subscription{}`
abbrev pub no_subscription : Subscription
no_subscription = record { channel = none; num = pos 0 }

module _ {D : Type 0} where
  -- What is sent behind UNSUBSCRIBE: the channels, where there are some.
  unfoldable pub many_args : List Bytes → Args D
  unfolding string_args
  many_args [] = end
  many_args (s ∷ ss) = arg (container (string_args (s ∷ ss))) end
