-- ===== src/Tests/Session.antt =====
-- The theorems on any command, on sessions and on subscriptions at concrete inputs.
use qbm_redis.Base.{if◌then◌else◌, false, refl, ◌≡◌, ◌++◌, true, List, [], ◌∷◌, some, codes}
use qbm_redis.Base.Int.{ℤ, pos}
use qbm_redis.Types.{always, Subscription}
use qbm_redis.Wire.{put_in_pipe, arg, str, number, end}
use qbm_redis.Wire.Request.{read_request}
use qbm_redis.Outcome.{ok, IsCaught}
use qbm_redis.Handler.{Handler}
use qbm_redis.Consumer.{Consumer, handled, delivered, command, on_message}
use qbm_redis.Commands.Sets.Syntax.{SetCommand}
use qbm_redis.Consumer.Laws.{confirmation, message_reply}
use qbm_redis.Commands.{parse_request}
use qbm_redis.Commands.Server.Clients.{client_unblock_request, client_unblock_func_request}
use qbm_redis.Commands.Server.Unblock.{client_unblock-inverted}
use qbm_redis.Commands.SortedSets.Syntax.{SortedSetCommand}
use qbm_redis.Commands.Keys.Syntax.{KeyCommand}
use qbm_redis.Commands.Subscriptions.{no_subscription}
use qbm_redis.Commands.Subscriptions.Syntax.{SubscriptionCommand}
use qbm_redis.Commands.Subscriptions.Syntax as Subscriptions
use qbm_redis.Commands.Subscriptions.Requests as SubscriptionRequests
use qbm_redis.Commands.Subscriptions.Requests.{
  call_of, put_call, is_given, put_subscription_command-read,
}
use qbm_redis.Commands.Subscriptions.Confirmation.{
  subscribed, subscribed_of, subscribe-confirmed, second_confirmation,
}
use qbm_redis.Commands.All.{
  AnyCommand, keys, sets, sorted_sets, syntax, requested, packed, requested-IsCaught,
}
use qbm_redis.Commands.All.Session.{Event, call, arrive}
use qbm_redis.Tests.{integers, no_texts, integer_reply, error_reply}

abbrev add_member : AnyCommand ℤ
add_member = sorted_sets (
    SortedSetCommand.zadd (codes "k") (record { score = pos 5; member = codes "m" } ∷ []) always
      true)

abbrev delete_keys : AnyCommand ℤ
delete_keys = keys (KeyCommand.del (arg (str (codes "k")) (arg (number (pos 7)) end)))

requested-IsCaught_example : IsCaught (parse_request (requested add_member) error_reply)
requested-IsCaught_example = requested-IsCaught add_member error_reply

abbrev add_nothing : AnyCommand ℤ
add_nothing = sets (SetCommand.sadd [] end)

-- Two calls that send a command, with a reply to the first one between them and a call that returns early.
abbrev events : List (Event ℤ ℤ)
unfolding requested
events =
    call delete_keys (pos 0) (λ r. r.result)
    ∷ call add_nothing (pos 0) (λ r. r.result)
    ∷ arrive (integer_reply (pos 1))
    ∷ call add_member (pos 0) (λ r. r.result)
    ∷ []

client_unblock-inverted_example :
    client_unblock_request {D = ℤ} (pos 7) true ≡ client_unblock_func_request (pos 7) false
client_unblock-inverted_example = client_unblock-inverted ℤ (pos 7) true

abbrev subscription : SubscriptionCommand ℤ
subscription = SubscriptionCommand.subscribe (codes "c")

put_subscription_command-read_example :
    (put_call (codes "before") (call_of subscription) ≡ (
      if is_given subscription
      then codes "before" ++ put_in_pipe [] (SubscriptionRequests.packed subscription)
      else codes "before"))
    × (read_request (put_in_pipe [] (SubscriptionRequests.packed subscription) ++ codes "rest")
        ≡ some (codes "SUBSCRIBE" ∷ codes "c" ∷ [], codes "rest"))
unfolding Subscriptions.syntax
put_subscription_command-read_example =
    put_subscription_command-read subscription (codes "before") (codes "rest")

abbrev idle : Consumer Subscription
idle = record { out = []; replies = [] }

subscribe-confirmed_example :
    let c : Consumer Subscription = (subscribed ℤ (λ r. r.result) (b'c' ∷ []) idle).1 in
    (subscribed ℤ (λ r. r.result) [] idle ≡ (some no_subscription, idle))
    × (on_message (some (confirmation (b'c' ∷ []) 1)) c
        ≡ ok (record {
          action = handled (record { channel = some (b'c' ∷ []); num = pos 1 });
          consumer = record { out = c.out; replies = [] };
          owners = 0;
        }))
    × (on_message (some (message_reply (codes "d") (codes "p"))) c
        ≡ ok (record {
          action = delivered (record { pattern = []; channel = codes "d"; message = codes "p" });
          consumer = c;
          owners = 1;
        }))
subscribe-confirmed_example =
    subscribe-confirmed ℤ (λ r. r.result) idle [] b'c' [] (codes "d") (codes "p") 1

-- The callback of another command.
abbrev next_callback : Handler Subscription
next_callback r = ok no_subscription

second_confirmation_example :
    let c : Consumer Subscription =
      command {D = ℤ} next_callback
        (codes "PING")
        end
        (subscribed_of ℤ (λ r. r.result) (codes "a" ∷ codes "b" ∷ []) idle).1 in
    (on_message (some (confirmation (codes "a") 1)) c
      ≡ ok (record {
        action = handled (record { channel = some (codes "a"); num = pos 1 });
        consumer = record { out = c.out; replies = next_callback ∷ [] };
        owners = 0;
      }))
    × (on_message
          (some (confirmation (codes "b") 2))
          (record { out = c.out; replies = next_callback ∷ [] })
        ≡ ok (record {
          action = handled no_subscription;
          consumer = record { out = c.out; replies = [] };
          owners = 0;
        }))
second_confirmation_example =
    second_confirmation ℤ (λ r. r.result) next_callback (codes "PING") end [] (codes "a")
      (codes "b") 1 no_subscription refl
