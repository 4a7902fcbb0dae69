-- ===== src/Tests/Client.antt =====
-- The theorems on the clients at concrete inputs.
use qbm_redis.Base.{Bytes, ◌++◌, ◌≡◌, refl, List, [], ◌∷◌, some, codes, arith}
use qbm_redis.Base.Int.{ℤ, pos}
use qbm_redis.Wire.{Args, end, arg, str, put_in_pipe}
use qbm_redis.Outcome.{ok, fault}
use qbm_redis.Reply.{slot, no_slot, expected}
use qbm_redis.Reply.Scalars.{parse_long_long}
use qbm_redis.Reply.Scalars.Laws.{parse_long_long-IsCaught}
use qbm_redis.Reply.Containers.Laws.Nested.{array_reply}
use qbm_redis.Reply.Containers.Laws.Cursor.{string_reply}
use qbm_redis.Handler.{Reply, Handler, treply, failed}
use qbm_redis.Handler.Laws.{given, succeeded}
use qbm_redis.Client.{Redis, command, on_message, on_disconnected, command_sync}
use qbm_redis.Client.Order.{Input, issue, receive, callbacks, run, InOrder, run-InOrder}
use qbm_redis.Client.Order.Total.{Returns, Answers, run-Returns, treply-Answers}
use qbm_redis.Client.Waiting.{quiet, sync_outcome, on_disconnected-faults, command_sync-first}
use qbm_redis.Consumer.{Consumer, Received, Action, delivered, handled, reported}
use qbm_redis.Consumer
use qbm_redis.Consumer.Laws.{
  message_reply, pmessage_reply, Proper, on_message-delivered, on_message-Proper,
  on_message_two_owners,
}
use qbm_redis.Consumer.Sync
use qbm_redis.Reply.{is_array}
use qbm_redis.Consumer.Sync.Laws.{rounds, publications, command_sync-reply}
use qbm_redis.Tests.{integers, error_reply, integer_reply}

-- The callback of a command with an integer reply, which passes on what it is given.
abbrev keep : Handler (Reply ℤ)
keep = treply parse_long_long (pos 0) (λ r. r)

abbrev get_args : Args ℤ
get_args = arg (str (codes "k")) end

abbrev idle : Redis (Reply ℤ)
idle = record { out = []; replies = [] }

abbrev two_commands : List (Input ℤ (Reply ℤ))
two_commands =
    issue keep (codes "INCR") get_args
    ∷ issue keep (codes "GET") get_args
    ∷ receive (integer_reply (pos 7))
    ∷ receive error_reply
    ∷ []

keep-Answers : Answers keep
keep-Answers = treply-Answers parse_long_long (pos 0) (λ r. r) parse_long_long-IsCaught

run-Returns_example : Returns two_commands idle
unfolding callbacks
run-Returns_example = run-Returns two_commands idle tt tt (keep-Answers, (keep-Answers, tt))

abbrev two_replies : List (Reply ℤ)
two_replies = succeeded (integer_reply (pos 7)) (pos 7) ∷ failed (pos 0) error_reply ∷ []

abbrev answered : Redis (Reply ℤ)
answered = record {
  out =
      put_in_pipe (put_in_pipe [] (arg (str (codes "INCR")) get_args))
        (arg (str (codes "GET")) get_args);
  replies = [];
}

run-InOrder_example : InOrder two_commands idle two_replies answered
unfolding run command on_message treply parse_long_long expected
run-InOrder_example = run-InOrder two_commands idle two_replies answered refl

on_disconnected-faults_example :
    (on_disconnected (record { out = []; replies = keep ∷ keep ∷ [] }) ≡ fault)
    × (on_disconnected {E = Reply ℤ} (record { out = []; replies = [] })
        ≡ ok ([], record { out = []; replies = [] }))
on_disconnected-faults_example =
    on_disconnected-faults parse_long_long (pos 0) (λ (r : Reply ℤ). r) [] (keep ∷ [])

command_sync-first_example :
    command_sync {E = Reply ℤ} parse_long_long
      (pos 0)
      (codes "INCR")
      get_args
      (quiet 2 ((error_reply ∷ []) ∷ []))
      (record { out = []; replies = [] })
    ≡ sync_outcome error_reply
        (record { out = put_in_pipe [] (arg (str (codes "INCR")) get_args); replies = [] })
        (parse_long_long error_reply)
command_sync-first_example =
    command_sync-first parse_long_long (pos 0) (codes "INCR") get_args 2 error_reply [] []
      (parse_long_long-IsCaught error_reply)

abbrev subscriber : Consumer (Reply ℤ)
subscriber = record { out = []; replies = keep ∷ [] }

on_message-delivered_example :
    (Consumer.on_message (some (message_reply (codes "c") (codes "hello"))) subscriber
      ≡ ok (record {
        action = delivered (record { pattern = []; channel = codes "c"; message = codes "hello" });
        consumer = subscriber;
        owners = 1;
      }))
    × (Consumer.on_message
          (some (pmessage_reply (codes "*") (codes "c") (codes "hello")))
          subscriber
        ≡ ok (record {
          action =
              delivered
                (record { pattern = codes "*"; channel = codes "c"; message = codes "hello" });
          consumer = subscriber;
          owners = 1;
        }))
on_message-delivered_example =
    on_message-delivered (codes "*") (codes "c") (codes "hello") subscriber

on_message-Proper_example :
    Proper
      (integer_reply (pos 3))
      subscriber
      (Consumer.on_message (some (integer_reply (pos 3))) subscriber)
on_message-Proper_example = on_message-Proper (integer_reply (pos 3)) subscriber

on_message_two_owners_example :
    Consumer.on_message
      (some (array_reply (slot (string_reply (codes "message")) no_slot)))
      subscriber
    ≡ ok (record {
      action = reported (codes "Expect 3 sub replies");
      consumer = subscriber;
      owners = 2;
    })
on_message_two_owners_example = on_message_two_owners no_slot subscriber (omega arith)

abbrev news : List (Bytes × Bytes)
news = (codes "c", codes "hello") ∷ (codes "d", codes "world") ∷ []

command_sync-reply_example :
    Sync.command_sync {D = ℤ} {E = ℤ} parse_long_long
      (pos 0)
      (codes "PING")
      end
      (rounds (news ∷ [] ∷ []) ((publications news ++ error_reply ∷ []) ∷ []))
      (record { out = []; replies = [] })
    ≡ ok (
        some (
          given (pos 0) error_reply (parse_long_long error_reply),
          record { out = put_in_pipe {D = ℤ} [] (arg (str (codes "PING")) end); replies = [] },
        ))
unfolding is_array
command_sync-reply_example =
    command_sync-reply parse_long_long (pos 0) (codes "PING") end (news ∷ [] ∷ []) news error_reply
      [] [] refl (parse_long_long-IsCaught error_reply)
