-- ===== src/Client/Waiting.antt =====
-- redis.h, `Redis`: what ends a wait: the reply of a synchronous command, or the end of the
-- connection.
use qbm_redis.Base.{
  ℕ, zero, suc, ◌≡◌, refl, true, List, [], ◌∷◌, Option, none, some, Bytes, ◌⊎◌, inr, is_empty,
}
use qbm_redis.Floating.{Floating}
use qbm_redis.Wire.{Args, arg, str, put_in_pipe}
use qbm_redis.Outcome.{Outcome, ok, throw, fault, runtime_error, IsCaught}
use qbm_redis.Reply.{RedisReply, str_of}
use qbm_redis.Handler.{Reply, Handler, treply, text_of}
use qbm_redis.Handler.Laws.{given, treply-given}
use qbm_redis.Client.{Redis, command, command_sync, on_replies, on_message, on_disconnected, await}

-- `k` rounds of the event loop that find nothing, and then others.
unfoldable pub quiet : ℕ → List (List RedisReply) → List (List RedisReply)
quiet zero batches = batches
quiet (suc k) batches = [] ∷ quiet k batches

-- What the caller of a synchronous command gets for a reply.
unfoldable pub sync_outcome :
    {S T : Type 0} → RedisReply → S → Outcome T → Outcome (Option (Reply T × S))
sync_outcome r s (ok v) =
    ok (some (record { is_ok = true; result = v; raw = some r; error = [] }, s))
sync_outcome r s _ = throw (runtime_error (text_of (str_of r)))

module _ {E : Type 0} where
  await-quiet :
      (k : ℕ) (batches : List (List RedisReply)) (out : Bytes) (h : Handler E)
      (hs : List (Handler E)) (x : Option (List E × Redis E))
      → await batches (record { out = out; replies = h ∷ hs }) ≡ ok x
      → await (quiet k batches) (record { out = out; replies = h ∷ hs }) ≡ ok x
  unfolding quiet await on_replies is_empty
  await-quiet zero batches out h hs x p = p
  await-quiet (suc k) batches out h hs none p = rw (await-quiet k batches out h hs none p)
  await-quiet (suc k) batches out h hs (some (es, t)) p =
      rw (await-quiet k batches out h hs (some (es, t)) p)

  await_one :
      (r : RedisReply) (batches : List (List RedisReply)) (out : Bytes) (h : Handler E) (e : E)
      → h (some r) ≡ ok e
      → await ((r ∷ []) ∷ batches) (record { out = out; replies = h ∷ [] })
        ≡ ok (some (e ∷ [], record { out = out; replies = [] }))
  unfolding await on_replies on_message is_empty
  await_one r batches out h e p = rw p

  -- If the connection ends while a callback of a command waits, the client reads through the null
  -- pointer that it hands to the callback. With no callback nothing happens.
  pub on_disconnected-faults :
      {T : Type 0} (parse : RedisReply → Outcome T) (default : T) (func : Reply T → E) (out : Bytes)
      (hs : List (Handler E))
      → (on_disconnected (record { out = out; replies = treply parse default func ∷ hs }) ≡ fault)
        × (on_disconnected {E = E} (record { out = out; replies = [] })
            ≡ ok ([], record { out = out; replies = [] }))
  unfolding on_disconnected on_message treply
  on_disconnected-faults parse default func out hs = (refl, refl)

module _ {D E T : Type 0} ⦃F : Floating D⦄ (parse : RedisReply → Outcome T) (default : T) where
  sync_of :
      (name : Bytes) (args : Args D) (k : ℕ) (r : RedisReply) (batches : List (List RedisReply))
      (out : Bytes) (o : Outcome T)
      → treply {E = E ⊎ Reply T} parse default inr (some r) ≡ ok (inr (given default r o))
      → command_sync {E = E} parse default name args
          (quiet k ((r ∷ []) ∷ batches))
          (record { out = out; replies = [] })
        ≡ sync_outcome r (record { out = put_in_pipe out (arg (str name) args); replies = [] }) o
  unfolding command_sync command sync_outcome
  sync_of name args k r batches out (ok v) p = rw (
      await-quiet k ((r ∷ []) ∷ batches) _ _ [] _
        (await_one r batches _ (treply parse default inr) _ p))
  sync_of name args k r batches out _ p = rw (
      await-quiet k ((r ∷ []) ∷ batches) _ _ [] _
        (await_one r batches _ (treply parse default inr) _ p))

  -- A synchronous command on a client for which no callback waits returns with the first reply that
  -- arrives, after any number of empty rounds: with the value that was parsed, or, where the parse
  -- throws a `ProtoError`, with a `runtime_error` whose text is that of the reply. The queue is empty
  -- again.
  pub command_sync-first :
      (name : Bytes) (args : Args D) (k : ℕ) (r : RedisReply) (batches : List (List RedisReply))
      (out : Bytes)
      → IsCaught (parse r)
      → command_sync {E = E} parse default name args
          (quiet k ((r ∷ []) ∷ batches))
          (record { out = out; replies = [] })
        ≡ sync_outcome r
            (record { out = put_in_pipe out (arg (str name) args); replies = [] })
            (parse r)
  command_sync-first name args k r batches out c =
      sync_of name args k r batches out (parse r) (treply-given parse default inr r c)
