-- ===== src/Commands/Subscriptions/Channels.antt =====
-- subscription_commands.h: the commands on channels. An overload with a callback that is given
-- nothing calls it with a failed reply.
use qbm_redis.Base.{List, Bytes, codes, is_empty}
use qbm_redis.Types.{Subscription}
use qbm_redis.Reply.Published.{parse_subscription}
use qbm_redis.Commands.{Request, Call, unless, args_1}
use qbm_redis.Commands.Arguments.{string_args, nonempty_args}
use qbm_redis.Wire.{str, container}
use qbm_redis.Commands.Subscriptions.{no_subscription, many_args}

module _ {D : Type 0} where
  unfoldable pub subscribe_request : Bytes → Request D Subscription
  subscribe_request channel = record {
    name = codes "SUBSCRIBE";
    args = args_1 (str channel);
    parse = parse_subscription;
  }

  unfoldable pub subscribe : Bytes → Call D Subscription
  unfolding subscribe_request is_empty
  subscribe channel = unless (is_empty channel) no_subscription (subscribe_request channel)

  unfoldable pub subscribe_of_request : List Bytes → Request D Subscription
  unfolding string_args
  subscribe_of_request channels = record {
    name = codes "SUBSCRIBE";
    args = args_1 (container (string_args channels));
    parse = parse_subscription;
  }

  unfoldable pub subscribe_of : List Bytes → Call D Subscription
  unfolding subscribe_of_request is_empty
  subscribe_of channels = unless (is_empty channels) no_subscription (subscribe_of_request channels)

  unfoldable pub unsubscribe_request : Bytes → Request D Subscription
  unfolding nonempty_args
  unsubscribe_request channel = record {
    name = codes "UNSUBSCRIBE";
    args = nonempty_args channel;
    parse = parse_subscription;
  }

  unfoldable pub unsubscribe_of_request : List Bytes → Request D Subscription
  unfolding many_args
  unsubscribe_of_request channels = record {
    name = codes "UNSUBSCRIBE";
    args = many_args channels;
    parse = parse_subscription;
  }
