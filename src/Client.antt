-- ===== src/Client.antt =====
-- redis.h: the client `Redis`. Its state is the output pipe and the queue of the callbacks that wait
-- for a reply; its events are a command, a message of the protocol and the end of the connection.
pub mod Order
pub mod Waiting
use qbm_redis.Base.{
  ℕ, zero, suc, Bool, true, false, List, [], ◌∷◌, ◌++◌, Option, none, some, Bytes, is_empty, ◌⊎◌,
  inl, inr,
}
use qbm_redis.Floating.{Floating}
use qbm_redis.Wire.{Args, arg, put_in_pipe, str}
use qbm_redis.Outcome.{Outcome, ok, throw, fault, runtime_error, ◌>>=◌}
use qbm_redis.Reply.{RedisReply}
use qbm_redis.Handler.{Reply, Handler, treply}

pub record Redis (E : Type 0) : Type 0 where
  pub out : Bytes
  pub replies : List (Handler E)

module _ {D E : Type 0} ⦃F : Floating D⦄ where
  -- `command(func, name, args...)`: the frame goes to the pipe, the callback to the end of the queue.
  unfoldable pub command : Handler E → Bytes → Args D → Redis E → Redis E
  command callback name args s = record {
    out = put_in_pipe s.out (arg (str name) args);
    replies = s.replies ++ callback ∷ [];
  }

-- What a round did, in front of what the later ones did.
abbrev pub also : {E S : Type 0} → E → List E × S → Outcome (List E × S)
also e (es, s) = ok (e ∷ es, s)

module _ {E : Type 0} where
  serve_front : Bytes → List (Handler E) → Option RedisReply → Outcome (E × Redis E)
  serve_front out [] msg = fault
  serve_front out (front ∷ others) msg = do
    e ← front msg
    ok (e, record { out = out; replies = others })

  -- `on(message)`: the callback at the front of the queue is called and removed.
  unfoldable pub on_message : Option RedisReply → Redis E → Outcome (E × Redis E)
  unfolding serve_front
  on_message msg s = serve_front s.out s.replies msg

  -- `redis::onMessage` of the protocol: one message for each reply that the reader has complete.
  unfoldable pub on_replies : List RedisReply → Redis E → Outcome (List E × Redis E)
  on_replies [] s = ok ([], s)
  on_replies (r ∷ rs) s = on_message (some r) s >>= λ (e, t). on_replies rs t >>= also e

  -- The loop of `on(disconnected)`: a null pointer for each callback that waits.
  drain : Bytes → List (Handler E) → Outcome (List E × Redis E)
  unfolding on_message
  drain out [] = ok ([], record { out = out; replies = [] })
  drain out (h ∷ hs) = on_message none (record { out = out; replies = h ∷ hs }) >>= λ (e, t).
      drain t.out hs >>= also e

  unfoldable pub on_disconnected : Redis E → Outcome (List E × Redis E)
  unfolding drain
  on_disconnected s = drain s.out s.replies

  -- `await`: `run` hands over the replies that are there, at least once and until no callback waits.
  -- Each list is what one `run` finds; `none` is a wait that these do not end.
  unfoldable pub await : List (List RedisReply) → Redis E → Outcome (Option (List E × Redis E))
  await [] s = ok none
  await (batch ∷ batches) s = on_replies batch s >>= λ (es, t). elim (is_empty t.replies) [
    | true ↦ ok (some (es, t))
    | false ↦
        await batches t >>= λ o. elim o [ none ↦ ok none | some (fs, u) ↦ ok (some (es ++ fs, u)) ]
  ]

-- The reply that the callback of a synchronous command stored, or the one that it began with. What
-- the other callbacks do is on the left.
stored : {E T : Type 0} → Reply T → List (E ⊎ Reply T) → Reply T
stored value [] = value
stored value (inl e ∷ es) = stored value es
stored value (inr r ∷ es) = stored r es

-- `if (!value.ok()) throw std::runtime_error(value.error());`
checked : {T : Type 0} → Reply T → Outcome (Reply T)
checked value = elim value.is_ok [ true ↦ ok value | false ↦ throw (runtime_error value.error) ]

-- `Reply<Ret> value{};`
abbrev pub empty_reply : {T : Type 0} → T → Reply T
empty_reply default = record { is_ok = false; result = default; raw = none; error = [] }

module _ {D E T : Type 0} ⦃F : Floating D⦄ (parse : RedisReply → Outcome T) (default : T) where
  -- `command(name, args...)`, which waits: its callback stores the reply.
  unfoldable pub command_sync :
      Bytes
      → Args D
      → List (List RedisReply)
      → Redis (E ⊎ Reply T)
      → Outcome (Option (Reply T × Redis (E ⊎ Reply T)))
  unfolding command await stored checked
  command_sync name args batches s =
      await batches (command (treply parse default inr) name args s) >>= λ o. elim o [
        | none ↦ ok none
        | some (es, t) ↦ checked (stored (empty_reply default) es) >>= λ value. ok (some (value, t))
      ]
