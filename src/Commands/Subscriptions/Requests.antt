-- ===== src/Commands/Subscriptions/Requests.antt =====
-- subscription_commands.h: the requests of all methods.
use qbm_redis.Base.{
  Bool, true, not, is_empty, if◌then◌else◌, ◌≡◌, refl, ap, ◌∙◌, List, [], ◌∷◌, ◌++◌, append-nil,
  some, Bytes, arith,
}
use qbm_redis.Floating.{Floating}
use qbm_redis.Types.{Subscription}
use qbm_redis.Commands.{Call, sends, returns, pack, AnyRequest, any, packed_request}
use qbm_redis.Wire.{Args, redis_count, put_in_pipe}
use qbm_redis.Commands.Subscriptions.{many_args}
use qbm_redis.Wire.Request.{read_request}
use qbm_redis.Wire.Framing.{put_in_pipe-read}
use qbm_redis.Commands.Subscriptions.Channels
use qbm_redis.Commands.Subscriptions.Patterns
use qbm_redis.Wire.Words.{words, words_of}
use qbm_redis.Wire.Counting.{AllUniform}
use qbm_redis.Commands.Arguments.Laws.{
  nonempty_args-AllUniform, nonempty_args-words, string_list-IsUniform, string_args-words,
}
use qbm_redis.Commands.Subscriptions.Syntax.{
  SubscriptionCommand, subscribe, subscribe_of, unsubscribe, unsubscribe_of, psubscribe,
  psubscribe_of, punsubscribe, punsubscribe_of, syntax,
}

module _ (D : Type 0) where
  many_args-AllUniform : (ss : List Bytes) → AllUniform {D = D} (many_args ss)
  unfolding many_args
  many_args-AllUniform [] = tt
  many_args-AllUniform (s ∷ ss) = (string_list-IsUniform D (s ∷ ss), tt)

module _ (D : Type 0) ⦃F : Floating D⦄ where
  many_args-words : (ss : List Bytes) → words_of {D = D} (many_args ss) ≡ ss
  unfolding words many_args
  many_args-words [] = refl
  many_args-words (s ∷ ss) = simp (string_args-words D (s ∷ ss), append-nil)

module _ {D : Type 0} ⦃F : Floating D⦄ where
  -- The request of the method.
  unfoldable pub requested : SubscriptionCommand D → AnyRequest D
  unfolding Channels.subscribe_request Channels.subscribe_of_request Channels.unsubscribe_request
      Channels.unsubscribe_of_request Patterns.psubscribe_request Patterns.psubscribe_of_request
      Patterns.punsubscribe_request Patterns.punsubscribe_of_request
  requested (subscribe channel) = any (Channels.subscribe_request channel)
  requested (subscribe_of channels) = any (Channels.subscribe_of_request channels)
  requested (unsubscribe channel) = any (Channels.unsubscribe_request channel)
  requested (unsubscribe_of channels) = any (Channels.unsubscribe_of_request channels)
  requested (psubscribe pattern) = any (Patterns.psubscribe_request pattern)
  requested (psubscribe_of patterns) = any (Patterns.psubscribe_of_request patterns)
  requested (punsubscribe pattern) = any (Patterns.punsubscribe_request pattern)
  requested (punsubscribe_of patterns) = any (Patterns.punsubscribe_of_request patterns)

  -- The arguments of `put_in_pipe` that the method comes to.
  abbrev pub packed : SubscriptionCommand D → Args D
  packed c = packed_request (requested c)

  -- What the method asks of its arguments.
  abbrev pub HasUniform : SubscriptionCommand D → Type 0
  HasUniform _ = Unit

  pub packed-AllUniform : (c : SubscriptionCommand D) → HasUniform c → AllUniform (packed c)
  unfolding requested redis_count
  packed-AllUniform (subscribe_of channels) u = (tt, (string_list-IsUniform D channels, tt))
  packed-AllUniform (unsubscribe channel) u = (tt, nonempty_args-AllUniform D channel)
  packed-AllUniform (unsubscribe_of channels) u = (tt, many_args-AllUniform D channels)
  packed-AllUniform (psubscribe_of patterns) u = (tt, (string_list-IsUniform D patterns, tt))
  packed-AllUniform (punsubscribe pattern) u = (tt, nonempty_args-AllUniform D pattern)
  packed-AllUniform (punsubscribe_of patterns) u = (tt, many_args-AllUniform D patterns)
  packed-AllUniform _ u = omega arith

  pub packed-syntax : (c : SubscriptionCommand D) → HasUniform c → words_of (packed c) ≡ syntax c
  unfolding requested words syntax
  packed-syntax (subscribe_of channels) u = simp (string_args-words D, append-nil)
  packed-syntax (unsubscribe channel) u = simp (nonempty_args-words D channel)
  packed-syntax (unsubscribe_of channels) u = simp (many_args-words D channels)
  packed-syntax (psubscribe_of patterns) u = simp (string_args-words D, append-nil)
  packed-syntax (punsubscribe pattern) u = simp (nonempty_args-words D pattern)
  packed-syntax (punsubscribe_of patterns) u = simp (many_args-words D patterns)
  packed-syntax _ u = refl

  -- The call that a method comes to.
  unfoldable pub call_of : SubscriptionCommand D → Call D Subscription
  unfolding Channels.subscribe Channels.subscribe_of Patterns.psubscribe Patterns.psubscribe_of
      Channels.unsubscribe_request Channels.unsubscribe_of_request Patterns.punsubscribe_request
      Patterns.punsubscribe_of_request
  call_of (subscribe channel) = Channels.subscribe channel
  call_of (subscribe_of channels) = Channels.subscribe_of channels
  call_of (unsubscribe channel) = sends (Channels.unsubscribe_request channel)
  call_of (unsubscribe_of channels) = sends (Channels.unsubscribe_of_request channels)
  call_of (psubscribe pattern) = Patterns.psubscribe pattern
  call_of (psubscribe_of patterns) = Patterns.psubscribe_of patterns
  call_of (punsubscribe pattern) = sends (Patterns.punsubscribe_request pattern)
  call_of (punsubscribe_of patterns) = sends (Patterns.punsubscribe_of_request patterns)

  -- The pipe after a call.
  unfoldable pub put_call : {T : Type 0} → Bytes → Call D T → Bytes
  put_call pipe (sends q) = put_in_pipe pipe (pack q)
  put_call pipe (returns early) = pipe

  -- SUBSCRIBE and PSUBSCRIBE have something to subscribe to.
  unfoldable pub is_given : SubscriptionCommand D → Bool
  unfolding is_empty
  is_given (subscribe channel) = not (is_empty channel)
  is_given (subscribe_of channels) = not (is_empty channels)
  is_given (psubscribe pattern) = not (is_empty pattern)
  is_given (psubscribe_of patterns) = not (is_empty patterns)
  is_given _ = true

  call_of-packed :
      (c : SubscriptionCommand D) (pipe : Bytes)
      → put_call pipe (call_of c) ≡ (if is_given c then put_in_pipe pipe (packed c) else pipe)
  unfolding call_of put_call is_given requested
  call_of-packed (subscribe []) pipe = refl
  call_of-packed (subscribe (b ∷ channel)) pipe = refl
  call_of-packed (subscribe_of []) pipe = refl
  call_of-packed (subscribe_of (s ∷ ss)) pipe = refl
  call_of-packed (psubscribe []) pipe = refl
  call_of-packed (psubscribe (b ∷ pattern)) pipe = refl
  call_of-packed (psubscribe_of []) pipe = refl
  call_of-packed (psubscribe_of (s ∷ ss)) pipe = refl
  call_of-packed (unsubscribe channel) pipe = refl
  call_of-packed (unsubscribe_of channels) pipe = refl
  call_of-packed (punsubscribe pattern) pipe = refl
  call_of-packed (punsubscribe_of patterns) pipe = refl

  -- A call of a subscription command puts one frame behind what the pipe holds, from which a server
  -- reads exactly the words of the documented syntax; where a SUBSCRIBE or PSUBSCRIBE is given nothing,
  -- the pipe stays as it is.
  pub put_subscription_command-read :
      (c : SubscriptionCommand D) (pipe rest : Bytes)
      → (put_call pipe (call_of c)
          ≡ (if is_given c then pipe ++ put_in_pipe [] (packed c) else pipe))
        × (read_request (put_in_pipe [] (packed c) ++ rest) ≡ some (syntax c, rest))
  put_subscription_command-read c pipe rest =
      let (appended, read) = put_in_pipe-read pipe rest (packed c) (packed-AllUniform c tt) in
      (
        call_of-packed c pipe ∙ ap (λ p. if is_given c then p else pipe) appended,
        read ∙ ap (λ ws. some (ws, rest)) (packed-syntax c tt),
      )
