-- ===== src/Commands/Subscriptions/Syntax.antt =====
-- subscription_commands.h: the commands against the syntax that the server documents.
use qbm_redis.Base.{not, List, [], ◌∷◌, Bytes, codes, is_empty}
use qbm_redis.Floating.{Floating}
use qbm_redis.Commands.Arguments.Laws.{when}

-- A call of a method, with its arguments.
pub data SubscriptionCommand (D : Type 0) : Type 0 where
  subscribe : Bytes → SubscriptionCommand D
  subscribe_of : List Bytes → SubscriptionCommand D
  unsubscribe : Bytes → SubscriptionCommand D
  unsubscribe_of : List Bytes → SubscriptionCommand D
  psubscribe : Bytes → SubscriptionCommand D
  psubscribe_of : List Bytes → SubscriptionCommand D
  punsubscribe : Bytes → SubscriptionCommand D
  punsubscribe_of : List Bytes → SubscriptionCommand D

module _ {D : Type 0} ⦃F : Floating D⦄ where
  -- The words of the documented syntax.
  unfoldable pub syntax : SubscriptionCommand D → List Bytes
  unfolding when
  syntax (subscribe channel) = codes "SUBSCRIBE" ∷ channel ∷ []
  syntax (subscribe_of channels) = codes "SUBSCRIBE" ∷ channels
  syntax (unsubscribe channel) = codes "UNSUBSCRIBE" ∷ when (not (is_empty channel)) channel
  syntax (unsubscribe_of channels) = codes "UNSUBSCRIBE" ∷ channels
  syntax (psubscribe pattern) = codes "PSUBSCRIBE" ∷ pattern ∷ []
  syntax (psubscribe_of patterns) = codes "PSUBSCRIBE" ∷ patterns
  syntax (punsubscribe pattern) = codes "PUNSUBSCRIBE" ∷ when (not (is_empty pattern)) pattern
  syntax (punsubscribe_of patterns) = codes "PUNSUBSCRIBE" ∷ patterns
