-- ===== src/Consumer/Sync/Laws.antt =====
-- redis.h, `RedisConsumer`: the wait of a command while messages are published.
use qbm_redis.Base.{◌≡◌, refl, ◌∙◌, false, List, [], ◌∷◌, ◌++◌, some, Bytes, is_empty, ◌⊎◌, inr}
use qbm_redis.Floating.{Floating}
use qbm_redis.Wire.{Args, arg, str, put_in_pipe}
use qbm_redis.Outcome.{Outcome, ok, IsCaught}
use qbm_redis.Reply.{RedisReply, is_array}
use qbm_redis.Handler.{Reply, Handler, treply}
use qbm_redis.Handler.Laws.{given, treply-given}
use qbm_redis.Client.{empty_reply}
use qbm_redis.Consumer.{
  Action, delivered, handled, Consumer, command, on_message, to_callback, called,
}
use qbm_redis.Consumer.Laws.{message_reply, on_message-delivered}
use qbm_redis.Consumer.Sync.{on_replies, await, stored_by, command_sync}

-- What a server publishes in one round: channels and payloads.
unfoldable pub publications : List (Bytes × Bytes) → List RedisReply
publications [] = []
publications ((channel, payload) ∷ ps) = message_reply channel payload ∷ publications ps

-- Rounds in which only messages are published, and then others.
unfoldable pub rounds :
    List (List (Bytes × Bytes)) → List (List RedisReply) → List (List RedisReply)
rounds [] batches = batches
rounds (ps ∷ pss) batches = publications ps ∷ rounds pss batches

module _ {E : Type 0} where
  unfoldable pub deliveries : List (Bytes × Bytes) → List (Action E)
  deliveries [] = []
  deliveries ((channel, payload) ∷ ps) =
      delivered (record { pattern = []; channel = channel; message = payload }) ∷ deliveries ps

  on_replies-publications :
      (ps : List (Bytes × Bytes)) (rs : List RedisReply) (c : Consumer E) (acts : List (Action E))
      (d : Consumer E)
      → on_replies rs c ≡ ok (acts, d)
      → on_replies (publications ps ++ rs) c ≡ ok (deliveries ps ++ acts, d)
  unfolding publications deliveries on_replies
  on_replies-publications [] rs c acts d p = p
  on_replies-publications ((channel, payload) ∷ ps) rs c acts d p =
      rw ((on_message-delivered [] channel payload c).0, on_replies-publications ps rs c acts d p)

  -- A reply that is no array goes to the callback at the front.
  on_message-direct :
      (r : RedisReply) (out : Bytes) (h : Handler E) (e : E)
      → is_array r ≡ false
      → h (some r) ≡ ok e
      → on_message (some r) (record { out = out; replies = h ∷ [] })
        ≡ ok (record {
          action = handled e;
          consumer = record { out = out; replies = [] };
          owners = 0;
        })
  unfolding on_message to_callback called is_array
  on_message-direct r out h e d p = rw (d, p)

  round_of :
      (ps : List (Bytes × Bytes)) (c : Consumer E)
      → on_replies (publications ps) c ≡ ok (deliveries ps, c)
  unfolding publications deliveries on_replies
  round_of [] c = refl
  round_of ((channel, payload) ∷ ps) c =
      rw ((on_message-delivered [] channel payload c).0, round_of ps c)

  -- What was delivered in all rounds, in front of `acts`.
  unfoldable pub all_delivered : List (List (Bytes × Bytes)) → List (Action E) → List (Action E)
  all_delivered [] acts = acts
  all_delivered (ps ∷ pss) acts = deliveries ps ++ all_delivered pss acts

  await-rounds :
      (pss : List (List (Bytes × Bytes))) (batches : List (List RedisReply)) (out : Bytes)
      (h : Handler E) (hs : List (Handler E)) (acts : List (Action E)) (d : Consumer E)
      → await batches (record { out = out; replies = h ∷ hs }) ≡ ok (some (acts, d))
      → await (rounds pss batches) (record { out = out; replies = h ∷ hs })
        ≡ ok (some (all_delivered pss acts, d))
  unfolding rounds all_delivered await is_empty
  await-rounds [] batches out h hs acts d p = p
  await-rounds (ps ∷ pss) batches out h hs acts d p = rw (
    round_of ps (record { out = out; replies = h ∷ hs }),
    await-rounds pss batches out h hs acts d p,
  )

  await_last :
      (ps : List (Bytes × Bytes)) (r : RedisReply) (batches : List (List RedisReply)) (out : Bytes)
      (h : Handler E) (e : E)
      → is_array r ≡ false
      → h (some r) ≡ ok e
      → await ((publications ps ++ r ∷ []) ∷ batches) (record { out = out; replies = h ∷ [] })
        ≡ ok (some (deliveries ps ++ handled e ∷ [], record { out = out; replies = [] }))
  unfolding await is_empty
  await_last ps r batches out h e a p = rw (
      on_replies-publications ps (r ∷ []) (record { out = out; replies = h ∷ [] }) (handled e ∷ [])
        (record { out = out; replies = [] })
        (unfold on_replies in rw (on_message-direct r out h e a p)))

module _ {E T : Type 0} where
  stored_by-deliveries :
      (ps : List (Bytes × Bytes)) (v : Reply T) (acts : List (Action (E ⊎ Reply T)))
      → stored_by v (deliveries ps ++ acts) ≡ stored_by v acts
  unfolding stored_by deliveries
  stored_by-deliveries [] v acts = refl
  stored_by-deliveries ((channel, payload) ∷ ps) v acts = stored_by-deliveries ps v acts

  stored_by-all :
      (pss : List (List (Bytes × Bytes))) (v : Reply T) (acts : List (Action (E ⊎ Reply T)))
      → stored_by v (all_delivered pss acts) ≡ stored_by v acts
  unfolding all_delivered
  stored_by-all [] v acts = refl
  stored_by-all (ps ∷ pss) v acts =
      stored_by-deliveries ps v (all_delivered pss acts) ∙ stored_by-all pss v acts

module _ {D E T : Type 0} ⦃F : Floating D⦄ (parse : RedisReply → Outcome T) (default : T) where
  -- A command of a subscriber that waits, with no other callback waiting, returns with the first reply
  -- that is no array, after any rounds of published messages and behind those of its own round: with
  -- what its callback is given, also where the reply is an error. The queue is empty again.
  pub command_sync-reply :
      (name : Bytes) (args : Args D) (pss : List (List (Bytes × Bytes))) (ps : List (Bytes × Bytes))
      (r : RedisReply) (batches : List (List RedisReply)) (out : Bytes)
      → is_array r ≡ false
      → IsCaught (parse r)
      → command_sync {E = E} parse default name args
          (rounds pss ((publications ps ++ r ∷ []) ∷ batches))
          (record { out = out; replies = [] })
        ≡ ok (
            some (
              given default r (parse r),
              record { out = put_in_pipe out (arg (str name) args); replies = [] },
            ))
  unfolding command_sync command
  command_sync-reply name args pss ps r batches out a c = rw (
    await-rounds {E = E ⊎ Reply T} pss ((publications ps ++ r ∷ []) ∷ batches)
        (put_in_pipe out (arg (str name) args)) (treply parse default inr) []
        (deliveries ps ++ handled (inr (given default r (parse r))) ∷ [])
        (record { out = put_in_pipe out (arg (str name) args); replies = [] })
        (await_last ps r batches (put_in_pipe out (arg (str name) args)) (treply parse default inr)
          (inr (given default r (parse r))) a (treply-given parse default inr r c)),
    stored_by-all {E = E} pss (empty_reply default)
        (deliveries ps ++ handled (inr (given default r (parse r))) ∷ []),
    stored_by-deliveries {E = E} ps (empty_reply default)
        (handled (inr (given default r (parse r))) ∷ []),
    stored_by,
  )
