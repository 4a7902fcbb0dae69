-- ===== src/Consumer/Laws.antt =====
-- redis.h, `RedisConsumer`: what it does with published messages, with the replies to its commands,
-- and with confirmations of subscriptions.
use qbm_redis.Base.{
  ℕ, suc, ◌≡◌, ◌≢◌, refl, ◌⊎◌, inl, inr, false, List, [], ◌∷◌, Option, none, some, Bytes, codes,
  arith, Bool-cases, ◌==◌, length,
}
use qbm_redis.Base.Int.{pos}
use qbm_redis.Types.{Message}
use qbm_redis.Outcome.{Exception, Outcome, ok, throw, fault, IsCaught}
use qbm_redis.Reply.{
  RedisReply, reply, null_array, Slots, no_slot, slot, slot_list, element, reply_integer, type_of,
  reply_array,
}
use qbm_redis.Reply.Scalars.{parse_string_view}
use qbm_redis.Reply.Scalars.Laws.{parse_string_view-IsCaught}
use qbm_redis.Reply.Published.Laws.{parse_message-IsCaught}
use qbm_redis.Reply.Published.{parse_message, parse_pmessage}
use qbm_redis.Reply.Containers.Laws.Nested.{array_reply}
use qbm_redis.Reply.Containers.Laws.Cursor.{string_reply}
use qbm_redis.Handler.{Handler}
use qbm_redis.Consumer.{
  MsgType, msg_type, Consumer, Action, delivered, handled, logged, reported, Received, on_message,
  called, to_callback, to_derived, dispatch, by_type, by_first, report,
}

-- The messages that a server publishes to a subscriber of a channel, and of a pattern.
abbrev pub message_reply : Bytes → Bytes → RedisReply
message_reply channel payload = array_reply (
    slot (string_reply (codes "message"))
      (slot (string_reply channel) (slot (string_reply payload) no_slot)))

abbrev pub pmessage_reply : Bytes → Bytes → Bytes → RedisReply
pmessage_reply pattern channel payload = array_reply (
    slot (string_reply (codes "pmessage")) (
      slot (string_reply pattern)
        (slot (string_reply channel) (slot (string_reply payload) no_slot))))

-- The confirmation that one channel was subscribed to, with the number of subscriptions.
abbrev pub confirmation : Bytes → ℕ → RedisReply
confirmation channel n = array_reply (
    slot (string_reply (codes "subscribe")) (
      slot (string_reply channel) (slot (reply reply_integer (pos n) none (null_array 0)) no_slot)))

not_three : (n : ℕ) → n ≢ 2 → (suc n == 3) ≡ false
not_three n h = ground arith

module _ {E : Type 0} where
  -- A published message is delivered with its channel, its payload and, for a pattern subscription, its
  -- pattern; no callback is called, and the reply has one owner.
  pub on_message-delivered :
      (pattern channel payload : Bytes) (c : Consumer E)
      → (on_message (some (message_reply channel payload)) c
          ≡ ok (record {
            action = delivered (record { pattern = []; channel = channel; message = payload });
            consumer = c;
            owners = 1;
          }))
        × (on_message (some (pmessage_reply pattern channel payload)) c
            ≡ ok (record {
              action =
                  delivered (record { pattern = pattern; channel = channel; message = payload });
              consumer = c;
              owners = 1;
            }))
  unfolding on_message msg_type parse_message parse_pmessage parse_string_view codes
  on_message-delivered pattern channel payload c = (refl, refl)

  -- What an action does to the queue: only a callback that was called leaves it, from the front.
  abbrev pub Queue : RedisReply → Action E → List (Handler E) → List (Handler E) → Type 0
  Queue raw (delivered m) hs hs' = hs' ≡ hs
  Queue raw (reported e) hs hs' = hs' ≡ hs
  Queue raw (handled e) hs hs' = (h : Handler E) × (hs ≡ h ∷ hs') × (h (some raw) ≡ ok e)
  Queue raw (logged e) hs hs' =
      (h : Handler E) × (x : Exception) × (hs ≡ h ∷ hs') × (h (some raw) ≡ throw x)

  -- The owners of the reply beside those that a callback makes.
  abbrev pub Owned : Action E → ℕ → Type 0
  Owned (reported e) n = (n ≡ 1) ⊎ (n ≡ 2)
  Owned (delivered m) n = n ≡ 1
  Owned _ n = n ≡ 0

  -- Where the code reads through a null pointer: the one in the front of the array, or in a callback.
  abbrev pub Faulty : RedisReply → List (Handler E) → Type 0
  Faulty raw hs =
      ((es : List (Option RedisReply)) × (element raw ≡ some (none ∷ es)))
      ⊎ ((h : Handler E) × (others : List (Handler E)) × (hs ≡ h ∷ others) × (h (some raw) ≡ fault))

  abbrev pub Proper : RedisReply → Consumer E → Outcome (Received E) → Type 0
  Proper raw c (ok r) =
      (r.consumer.out ≡ c.out)
      × Queue raw r.action c.replies r.consumer.replies
      × Owned r.action r.owners
  Proper raw c (throw e) = ⊥
  Proper raw c fault = Faulty raw c.replies

  called-Proper :
      (raw : RedisReply) (out : Bytes) (h : Handler E) (hs : List (Handler E)) (o : Outcome E)
      → h (some raw) ≡ o
      → Proper raw (record { out = out; replies = h ∷ hs }) (called out hs o)
  unfolding called
  called-Proper raw out h hs (ok e) p = (refl, (h, refl, p), refl)
  called-Proper raw out h hs (throw x) p = (refl, (h, x, refl, p), refl)
  called-Proper raw out h hs fault p = inr (h, hs, refl, p)

  to_callback-Proper :
      (raw : RedisReply) (out : Bytes) (hs : List (Handler E))
      → Proper raw (record { out = out; replies = hs }) (to_callback raw out hs)
  unfolding to_callback report
  to_callback-Proper raw out [] = (refl, refl, inl refl)
  to_callback-Proper raw out (h ∷ hs) = called-Proper raw out h hs (h (some raw)) refl

  to_derived-Proper :
      (raw : RedisReply) (o : Outcome Message) (c : Consumer E)
      → IsCaught o
      → Proper raw c (to_derived o c)
  unfolding to_derived report
  to_derived-Proper raw (ok m) c k = (refl, refl, refl)
  to_derived-Proper raw (throw e) c k = (refl, refl, inr refl)
  to_derived-Proper raw fault c k = absurd k

  dispatch-Proper :
      (raw : RedisReply) (t : MsgType) (c : Consumer E) (es : List (Option RedisReply))
      → element raw ≡ some es
      → Proper raw c (dispatch raw t c)
  unfolding dispatch
  dispatch-Proper raw MsgType.message c es h =
      to_derived-Proper raw (parse_message raw) c (parse_message-IsCaught raw es h).0
  dispatch-Proper raw MsgType.pmessage c es h =
      to_derived-Proper raw (parse_pmessage raw) c (parse_message-IsCaught raw es h).1
  dispatch-Proper raw _ c es h = to_callback-Proper raw c.out c.replies

  by_type-Proper :
      (raw : RedisReply) (o : Outcome Bytes) (c : Consumer E) (es : List (Option RedisReply))
      → element raw ≡ some es
      → IsCaught o
      → Proper raw c (by_type raw o c)
  unfolding by_type report
  by_type-Proper raw (ok t) c es h k = dispatch-Proper raw (msg_type t) c es h
  by_type-Proper raw (throw e) c es h k = (refl, refl, inl refl)
  by_type-Proper raw fault c es h k = absurd k

  by_first-Proper :
      (raw : RedisReply) (o : Option (List (Option RedisReply))) (c : Consumer E)
      → element raw ≡ o
      → Proper raw c (by_first raw o c)
  unfolding by_first
  by_first-Proper raw none c h = to_callback-Proper raw c.out c.replies
  by_first-Proper raw (some []) c h = to_callback-Proper raw c.out c.replies
  by_first-Proper raw (some (none ∷ es)) c h = inl (es, h)
  by_first-Proper raw (some (some r ∷ es)) c h =
      by_type-Proper raw (parse_string_view r) c (some r ∷ es) h (parse_string_view-IsCaught r)

  -- Whatever the reply is, where a callback returns or throws a `std::exception` and the methods of the
  -- derived class return: no exception leaves `on(message)`; the pipe is as before; a published message
  -- and an error leave the queue alone, and otherwise exactly the callback at the front was called with
  -- the reply and removed, and the reply is left to it; a published message has one owner, and a reply
  -- that is reported as an error one or two. A null pointer is read only where the first element of the
  -- array is one, or by the callback at the front.
  pub on_message-Proper :
      (raw : RedisReply) (c : Consumer E) → Proper raw c (on_message (some raw) c)
  unfolding on_message
  on_message-Proper raw c = elim (Bool-cases (type_of raw == reply_array)) [
    | inl e ↦ rw e (by_first-Proper raw (element raw) c refl)
    | inr e ↦ rw e (to_callback-Proper raw c.out c.replies)
  ]

  -- A message of the type `message` with another number of elements than three has two owners: the one
  -- that `parse<message>` destroys while it throws, and the one of the error that is reported then.
  pub on_message_two_owners :
      (ss : Slots) (c : Consumer E)
      → length (slot_list ss) ≢ 2
      → on_message (some (array_reply (slot (string_reply (codes "message")) ss))) c
        ≡ ok (record { action = reported (codes "Expect 3 sub replies"); consumer = c; owners = 2 })
  unfolding on_message msg_type parse_message parse_string_view
  on_message_two_owners ss c h = rw (not_three (length (slot_list ss)) h)

  -- A confirmation goes to the callback at the front.
  pub confirmation-handled :
      (h : Handler E) (hs : List (Handler E)) (out channel : Bytes) (n : ℕ) (e : E)
      → h (some (confirmation channel n)) ≡ ok e
      → on_message (some (confirmation channel n)) (record { out = out; replies = h ∷ hs })
        ≡ ok (record {
          action = handled e;
          consumer = record { out = out; replies = hs };
          owners = 0;
        })
  unfolding on_message msg_type parse_string_view codes
  confirmation-handled h hs out channel n e p = rw (p, called)
