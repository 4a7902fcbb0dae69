-- ===== src/Commands/Subscriptions/Confirmation.antt =====
-- redis.h and subscription_commands.h: a subscription and its confirmation.
use qbm_redis.Base.{
  ℕ, suc, ◌≡◌, refl, false, List, [], ◌∷◌, Option, none, some, Bytes, codes, is_empty,
}
use qbm_redis.Base.Int.{pos}
use qbm_redis.Floating.{Floating}
use qbm_redis.Types.{Subscription}
use qbm_redis.Wire.{Args}
use qbm_redis.Outcome.{ok}
use qbm_redis.Handler.{Reply, Handler, treply}
use qbm_redis.Handler.Laws.{succeeded}
use qbm_redis.Consumer.{Consumer, handled, delivered, command, on_message, msg_type}
use qbm_redis.Consumer.Laws.{confirmation, message_reply, confirmation-handled}
use qbm_redis.Reply.Scalars.{parse_string_view, parse_string, parse_long_long}
use qbm_redis.Reply.Published.{parse_subscription, parse_message}
use qbm_redis.Commands.{Call, sends, returns}
use qbm_redis.Commands.Subscriptions.{no_subscription}
use qbm_redis.Commands.Subscriptions.Channels.{
  subscribe, subscribe_request, subscribe_of, subscribe_of_request,
}

-- `Reply<qb::redis::subscription> reply; reply.ok() = false;`
abbrev pub refused : Reply Subscription
refused = record { is_ok = false; result = no_subscription; raw = none; error = [] }

module _ (D : Type 0) ⦃F : Floating D⦄ {E : Type 0} (func : Reply Subscription → E) where
  -- An overload with a callback: what the callback makes of a reply that it is given at once, and the
  -- subscriber after the call.
  unfoldable pub subscribing : Call D Subscription → Consumer E → Option E × Consumer E
  unfolding command
  subscribing (returns early) c = (some (func refused), c)
  subscribing (sends q) c =
      (none, command {D = D} (treply q.parse no_subscription func) q.name q.args c)

  -- `subscribe(func, channel)` and `subscribe(func, channels)`
  unfoldable pub subscribed : Bytes → Consumer E → Option E × Consumer E
  unfolding subscribing subscribe
  subscribed channel c = subscribing (subscribe channel) c

  unfoldable pub subscribed_of : List Bytes → Consumer E → Option E × Consumer E
  unfolding subscribing subscribe_of
  subscribed_of channels c = subscribing (subscribe_of channels) c

  -- For an empty channel the callback is given a failed reply at once, and nothing is sent. For another
  -- one, while no other callback waits, the confirmation calls the callback with the channel and the
  -- number of subscriptions, and no callback waits then; a message that is published before the
  -- confirmation arrives is delivered, and the callback goes on to wait.
  pub subscribe-confirmed :
      (c0 : Consumer E) (out : Bytes) (b : ℕ) (channel other payload : Bytes) (n : ℕ)
      → let c : Consumer E = (subscribed (b ∷ channel) (record { out = out; replies = [] })).1 in
        (subscribed [] c0 ≡ (some (func refused), c0))
        × (on_message (some (confirmation (b ∷ channel) n)) c
            ≡ ok (record {
              action = handled (
                  func (
                    succeeded
                      (confirmation (b ∷ channel) n)
                      (record { channel = some (b ∷ channel); num = pos n })));
              consumer = record { out = c.out; replies = [] };
              owners = 0;
            }))
        × (on_message (some (message_reply other payload)) c
            ≡ ok (record {
              action = delivered (record { pattern = []; channel = other; message = payload });
              consumer = c;
              owners = 1;
            }))
  unfolding subscribed on_message msg_type parse_string_view treply parse_subscription parse_message
      parse_string parse_long_long codes subscribe_request command is_empty
  subscribe-confirmed c0 out b channel other payload n = (refl, refl, refl)

  -- `subscribe(func, {a, b})` is one command with one callback, but the server confirms each channel: the
  -- first confirmation goes to the callback, and the second to that of the command that was issued next.
  pub second_confirmation :
      (next : Handler E) (name : Bytes) (args : Args D) (out a b : Bytes) (n : ℕ) (y : E)
      → next (some (confirmation b (suc n))) ≡ ok y
      → let c : Consumer E =
          command next name args
            (subscribed_of (a ∷ b ∷ []) (record { out = out; replies = [] })).1 in
        (on_message (some (confirmation a n)) c
          ≡ ok (record {
            action =
                handled
                  (func (succeeded (confirmation a n) (record { channel = some a; num = pos n })));
            consumer = record { out = c.out; replies = next ∷ [] };
            owners = 0;
          }))
        × (on_message (some (confirmation b (suc n))) (record { out = c.out; replies = next ∷ [] })
            ≡ ok (record {
              action = handled y;
              consumer = record { out = c.out; replies = [] };
              owners = 0;
            }))
  unfolding subscribed_of on_message msg_type parse_string_view treply parse_subscription
      parse_string parse_long_long codes subscribe_of_request command is_empty
  second_confirmation next name args out a b n y p =
      (refl, confirmation-handled next [] _ b (suc n) y p)
