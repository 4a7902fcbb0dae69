-- ===== src/Client/Order.antt =====
-- redis.h, `Redis`: runs of commands and replies in any order.
pub mod Total
use qbm_redis.Base.{
  ℕ, zero, suc, ◌≡◌, refl, sym, ap, ◌∙◌, Bool, true, false, List, [], ◌∷◌, ◌++◌, append-nil,
  append_assoc, Option, none, some, Bytes, arith, map, length,
}
use qbm_redis.Floating.{Floating}
use qbm_redis.Wire.{Args, arg, put_in_pipe, str}
use qbm_redis.Wire.Pipeline.{put_commands}
use qbm_redis.Outcome.{Outcome, ok, throw, fault, ◌>>=◌}
use qbm_redis.Reply.{RedisReply}
use qbm_redis.Handler.{Handler}
use qbm_redis.Client.{Redis, also, command, on_message}

-- What happens to a client: a command is issued, or a reply arrives.
pub data Input (D E : Type 0) : Type 0 where
  issue : Handler E → Bytes → Args D → Input D E
  receive : RedisReply → Input D E

module _ {D E : Type 0} ⦃F : Floating D⦄ where
  unfoldable pub run : List (Input D E) → Redis E → Outcome (List E × Redis E)
  run [] s = ok ([], s)
  run (issue h name args ∷ is) s = run is (command h name args s)
  run (receive r ∷ is) s = on_message (some r) s >>= λ (e, t). run is t >>= also e

-- The callbacks, the frames and the replies of a run, each in order.
module _ {D E : Type 0} where
  unfoldable pub callbacks : List (Input D E) → List (Handler E)
  callbacks [] = []
  callbacks (issue h name args ∷ is) = h ∷ callbacks is
  callbacks (receive r ∷ is) = callbacks is

  unfoldable pub frames : List (Input D E) → List (Args D)
  frames [] = []
  frames (issue h name args ∷ is) = arg (str name) args ∷ frames is
  frames (receive r ∷ is) = frames is

  unfoldable pub received : List (Input D E) → List RedisReply
  received [] = []
  received (issue h name args ∷ is) = received is
  received (receive r ∷ is) = r ∷ received is

-- Each callback on the reply of the same place in its row, and the callbacks that are left.
module _ {E : Type 0} where
  unfoldable pub answers : List (Handler E) → List RedisReply → Outcome (List E × List (Handler E))
  answers hs [] = ok ([], hs)
  answers [] (r ∷ rs) = fault
  answers (h ∷ hs) (r ∷ rs) = h (some r) >>= λ e. answers hs rs >>= also e

module _ {E : Type 0} where
  answers-cons :
      (h : Handler E) (hs : List (Handler E)) (r : RedisReply) (rs : List RedisReply) (e : E)
      (es : List E) (left : List (Handler E))
      → h (some r) ≡ ok e
      → answers hs rs ≡ ok (es, left)
      → answers (h ∷ hs) (r ∷ rs) ≡ ok (e ∷ es, left)
  unfolding answers
  answers-cons h hs r rs e es left p q = rw (p, q)

-- A round that ended well: its callback did, and so did the rest.
round_parts :
    {E S : Type 0} (m : Outcome E) (n : Outcome (List E × S)) {es : List E} {t : S}
    → (m >>= λ e. n >>= also e) ≡ ok (es, t)
    → (e : E) × (fs : List E) × (m ≡ ok e) × (n ≡ ok (fs, t)) × (es ≡ e ∷ fs)
round_parts (ok e) (ok (fs, v)) h = (e, fs, refl, ground arith, ground arith)
round_parts (ok e) (throw x) h = cc
round_parts (ok e) fault h = cc
round_parts (throw x) n h = cc
round_parts fault n h = cc

module _ {D E : Type 0} ⦃F : Floating D⦄ where
  -- What a finished run has done.
  abbrev pub InOrder : List (Input D E) → Redis E → List E → Redis E → Type 0
  InOrder is s es t =
      (answers (s.replies ++ callbacks is) (received is) ≡ ok (es, t.replies))
      × (t.out ≡ put_commands s.out (frames is))

  pub run-receive :
      (r : RedisReply) (is : List (Input D E)) (out : Bytes) (h : Handler E) (hs : List (Handler E))
      (m : Outcome E)
      → h (some r) ≡ m
      → run (receive r ∷ is) (record { out = out; replies = h ∷ hs })
        ≡ (m >>= λ e. run is (record { out = out; replies = hs }) >>= also e)
  unfolding run on_message
  run-receive r is out h hs (ok e) p = rw p
  run-receive r is out h hs (throw x) p = rw p
  run-receive r is out h hs fault p = rw p

  receive-InOrder :
      (r : RedisReply) (is : List (Input D E)) (out : Bytes) (hs : List (Handler E)) (es : List E)
      (t : Redis E)
      → ((s : Redis E) (es : List E) → run is s ≡ ok (es, t) → InOrder is s es t)
      → run (receive r ∷ is) (record { out = out; replies = hs }) ≡ ok (es, t)
      → InOrder (receive r ∷ is) (record { out = out; replies = hs }) es t
  unfolding callbacks frames received
  receive-InOrder r is out [] es t ih p = unfold run on_message in cc
  receive-InOrder r is out (h ∷ hs) es t ih p =
      let (e, fs, front, rest, whole) =
        round_parts (h (some r)) (run is (record { out = out; replies = hs }))
          (sym (run-receive r is out h hs (h (some r)) refl) ∙ p) in
      let (answered, written) = ih (record { out = out; replies = hs }) fs rest in
      (
        rw whole
            (answers-cons h (hs ++ callbacks is) r (received is) e fs t.replies front answered),
        written,
      )

  -- In every run that ends well, however commands and replies are interleaved, the n-th reply was
  -- handed to the n-th callback, those that waited before the run first and then those of the commands
  -- in the order of their calls; the callbacks without a reply still wait in that order; and the pipe
  -- holds the frames of the commands in the order of their calls.
  pub run-InOrder :
      (is : List (Input D E)) (s : Redis E) (es : List E) (t : Redis E)
      → run is s ≡ ok (es, t)
      → InOrder is s es t
  unfolding run callbacks frames received command
  run-InOrder [] s es t h =
      (rw append-nil (unfold answers in ground arith), unfold put_commands in ground arith)
  run-InOrder (issue c name args ∷ is) s es t h =
      let (a, o) = run-InOrder is (command c name args s) es t h in
      (rw (append_assoc s.replies (c ∷ []) (callbacks is)) at a, o ∙ unfold put_commands in refl)
  run-InOrder (receive r ∷ is) s es t h =
      receive-InOrder r is s.out s.replies es t (λ u fs. run-InOrder is u fs t) h
