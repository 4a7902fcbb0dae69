-- ===== src/Consumer.antt =====
-- redis.h: `RedisConsumer`, the client that subscribes. A message of the protocol is a published
-- message, or the reply to a command of the client. Beside the new state the model counts the
-- `reply_ptr` objects that `on(message)` and the parse of a published message make of the raw reply: each
-- of them frees it. Those that a callback makes are its own.
pub mod Laws
pub mod Sync
use qbm_redis.Base.{
  ℕ, zero, suc, ◌+◌, Bool, true, false, ◌&&◌, List, [], ◌∷◌, ◌++◌, Option, none, some, Bytes, codes,
  same_bytes, is_empty, not, ◌==◌, if◌then◌else◌,
}
use qbm_redis.Floating.{Floating}
use qbm_redis.Wire.{Args, arg, put_in_pipe, str}
use qbm_redis.Types.{Message}
use qbm_redis.Outcome.{Exception, proto_error, what, Outcome, ok, throw, fault, ◌>>=◌}
use qbm_redis.Reply.{RedisReply, is_array, elements, element}
use qbm_redis.Reply.Scalars.{parse_string_view}
use qbm_redis.Reply.Published.{parse_message, parse_pmessage}
use qbm_redis.Handler.{Handler}

pub data MsgType : Type 0 where
  subscribe unsubscribe psubscribe punsubscribe message pmessage unknown : MsgType

-- The table `str_to_enum`.
unfoldable pub msg_type : Bytes → MsgType
unfolding same_bytes codes
msg_type type =
    if same_bytes type (codes "message")
    then message
    else if same_bytes type (codes "pmessage")
    then pmessage
    else if same_bytes type (codes "subscribe")
    then subscribe
    else if same_bytes type (codes "unsubscribe")
    then unsubscribe
    else if same_bytes type (codes "psubscribe")
    then psubscribe
    else if same_bytes type (codes "punsubscribe")
    then punsubscribe
    else unknown

pub record Consumer (E : Type 0) : Type 0 where
  pub out : Bytes
  pub replies : List (Handler E)

-- What a message leads to: `on(message)` or `on(pmessage)` of the derived class, the call of a
-- callback, a warning about a callback that threw a std::exception, or `on(error)` with its text. The
-- methods of the derived class return.
pub data Action (E : Type 0) : Type 0 where
  delivered : Message → Action E
  handled : E → Action E
  logged : Bytes → Action E
  reported : Bytes → Action E

pub record Received (E : Type 0) : Type 0 where
  pub action : Action E
  pub consumer : Consumer E
  pub owners : ℕ

module _ {D E : Type 0} ⦃F : Floating D⦄ where
  unfoldable pub command : Handler E → Bytes → Args D → Consumer E → Consumer E
  command callback name args c = record {
    out = put_in_pipe c.out (arg (str name) args);
    replies = c.replies ++ callback ∷ [];
  }

module _ {E : Type 0} where
  -- `catch (std::exception &e)`: the error takes the raw reply over, after `made` others.
  report : ℕ → Exception → Consumer E → Outcome (Received E)
  report made e c = ok (record { action = reported (what e); consumer = c; owners = made + 1 })

  -- The callback at the front has been called; a callback that throws is only logged.
  called : Bytes → List (Handler E) → Outcome E → Outcome (Received E)
  called out others (ok e) =
      ok (record {
        action = handled e;
        consumer = record { out = out; replies = others };
        owners = 0;
      })
  called out others (throw x) = ok (record {
    action = logged (what x);
    consumer = record { out = out; replies = others };
    owners = 0;
  })
  called out others fault = fault

  -- A message that is not published: for the callback at the front, if one waits.
  to_callback : RedisReply → Bytes → List (Handler E) → Outcome (Received E)
  unfolding report called
  to_callback raw out [] =
      report 0 (proto_error (codes "unknown message type.")) (record { out = out; replies = [] })
  to_callback raw out (front ∷ others) = called out others (front (some raw))

  -- A published message. `parse<message>` makes a `reply_ptr` before it looks at the reply, which goes
  -- into the message, or is destroyed when the parse throws.
  to_derived : Outcome Message → Consumer E → Outcome (Received E)
  unfolding report
  to_derived (ok m) c = ok (record { action = delivered m; consumer = c; owners = 1 })
  to_derived (throw e) c = report 1 e c
  to_derived fault c = fault

  dispatch : RedisReply → MsgType → Consumer E → Outcome (Received E)
  unfolding to_derived to_callback
  dispatch raw message c = to_derived (parse_message raw) c
  dispatch raw pmessage c = to_derived (parse_pmessage raw) c
  dispatch raw _ c = to_callback raw c.out c.replies

  -- The first element of an array decides.
  by_type : RedisReply → Outcome Bytes → Consumer E → Outcome (Received E)
  unfolding dispatch report
  by_type raw (ok type) c = dispatch raw (msg_type type) c
  by_type raw (throw e) c = report 0 e c
  by_type raw fault c = fault

  by_first : RedisReply → Option (List (Option RedisReply)) → Consumer E → Outcome (Received E)
  unfolding by_type to_callback
  by_first raw (some (some first ∷ es)) c = by_type raw (parse_string_view first) c
  by_first raw (some (none ∷ es)) c = fault
  by_first raw _ c = to_callback raw c.out c.replies

  -- `on(message)`
  unfoldable pub on_message : Option RedisReply → Consumer E → Outcome (Received E)
  unfolding by_first is_array
  on_message none c = fault
  on_message (some raw) c =
      if is_array raw then by_first raw (element raw) c else to_callback raw c.out c.replies

  -- The loop of `on(disconnected)`.
  drain : Bytes → List (Handler E) → Outcome (Consumer E)
  unfolding on_message
  drain out [] = ok (record { out = out; replies = [] })
  drain out (h ∷ hs) =
      on_message none (record { out = out; replies = h ∷ hs }) >>= λ r. drain out hs

  unfoldable pub on_disconnected : Consumer E → Outcome (Consumer E)
  unfolding drain
  on_disconnected c = drain c.out c.replies
