-- ===== src/Commands/Subscriptions/Patterns.antt =====
-- subscription_commands.h: the commands on patterns.
use qbm_redis.Base.{List, Bytes, codes, is_empty}
use qbm_redis.Types.{Subscription}
use qbm_redis.Reply.Published.{parse_subscription}
use qbm_redis.Commands.{Request, Call, unless, args_1}
use qbm_redis.Commands.Arguments.{string_args, nonempty_args}
use qbm_redis.Wire.{str, container}
use qbm_redis.Commands.Subscriptions.{no_subscription, many_args}

module _ {D : Type 0} where
  unfoldable pub psubscribe_request : Bytes → Request D Subscription
  psubscribe_request pattern = record {
    name = codes "PSUBSCRIBE";
    args = args_1 (str pattern);
    parse = parse_subscription;
  }

  unfoldable pub psubscribe : Bytes → Call D Subscription
  unfolding psubscribe_request is_empty
  psubscribe pattern = unless (is_empty pattern) no_subscription (psubscribe_request pattern)

  unfoldable pub psubscribe_of_request : List Bytes → Request D Subscription
  unfolding string_args
  psubscribe_of_request patterns = record {
    name = codes "PSUBSCRIBE";
    args = args_1 (container (string_args patterns));
    parse = parse_subscription;
  }

  unfoldable pub psubscribe_of : List Bytes → Call D Subscription
  unfolding psubscribe_of_request is_empty
  psubscribe_of patterns =
      unless (is_empty patterns) no_subscription (psubscribe_of_request patterns)

  unfoldable pub punsubscribe_request : Bytes → Request D Subscription
  unfolding nonempty_args
  punsubscribe_request pattern = record {
    name = codes "PUNSUBSCRIBE";
    args = nonempty_args pattern;
    parse = parse_subscription;
  }

  unfoldable pub punsubscribe_of_request : List Bytes → Request D Subscription
  unfolding many_args
  punsubscribe_of_request patterns = record {
    name = codes "PUNSUBSCRIBE";
    args = many_args patterns;
    parse = parse_subscription;
  }
