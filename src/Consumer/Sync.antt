-- ===== src/Consumer/Sync.antt =====
-- redis.h: the commands of `RedisConsumer` that wait, and `await`.
pub mod Laws
use qbm_redis.Base.{
  ℕ, Bool, true, false, List, [], ◌∷◌, ◌++◌, Option, none, some, Bytes, is_empty, ◌⊎◌, inl, inr,
}
use qbm_redis.Floating.{Floating}
use qbm_redis.Wire.{Args}
use qbm_redis.Outcome.{Outcome, ok, throw, fault, ◌>>=◌}
use qbm_redis.Reply.{RedisReply}
use qbm_redis.Handler.{Reply, Handler, treply}
use qbm_redis.Client.{empty_reply}
use qbm_redis.Consumer.{
  Action, delivered, handled, logged, reported, Received, Consumer, command, on_message,
}

module _ {E : Type 0} where
  -- One message of the protocol for each reply that the reader has complete.
  unfoldable pub on_replies : List RedisReply → Consumer E → Outcome (List (Action E) × Consumer E)
  on_replies [] c = ok ([], c)
  on_replies (r ∷ rs) c = on_message (some r) c >>= λ d.
      on_replies rs d.consumer >>= λ (acts, e). ok (d.action ∷ acts, e)

  -- `await`: rounds of the event loop, at least one, until no callback waits.
  unfoldable pub await :
      List (List RedisReply) → Consumer E → Outcome (Option (List (Action E) × Consumer E))
  await [] c = ok none
  await (batch ∷ batches) c = on_replies batch c >>= λ (acts, d). elim (is_empty d.replies) [
    | true ↦ ok (some (acts, d))
    | false ↦ await batches d >>= λ o. elim o [
      | none ↦ ok none
      | some (bs, e) ↦ ok (some (acts ++ bs, e))
    ]
  ]

-- The reply that the callback of the command stored, or the one that it began with.
unfoldable pub stored_by : {E T : Type 0} → Reply T → List (Action (E ⊎ Reply T)) → Reply T
stored_by value [] = value
stored_by value (handled (inr r) ∷ acts) = stored_by r acts
stored_by value (a ∷ acts) = stored_by value acts

module _ {D E T : Type 0} ⦃F : Floating D⦄ (parse : RedisReply → Outcome T) (default : T) where
  -- `command(name, args...)`, which waits; the reply is returned also where it is an error.
  unfoldable pub command_sync :
      Bytes
      → Args D
      → List (List RedisReply)
      → Consumer (E ⊎ Reply T)
      → Outcome (Option (Reply T × Consumer (E ⊎ Reply T)))
  unfolding command await stored_by
  command_sync name args batches c =
      await batches (command (treply parse default inr) name args c) >>= λ o. elim o [
        | none ↦ ok none
        | some (acts, d) ↦ ok (some (stored_by (empty_reply default) acts, d))
      ]
