-- ===== src/Client/Order/Total.antt =====
-- redis.h, `Redis`: runs in which no reply comes before its command.
use qbm_redis.Base.{
  ℕ, zero, suc, ◌+◌, ◌≡◌, refl, ◌∙◌, List, [], ◌∷◌, some, Bytes, arith, All, All-append, length,
  length-append,
}
use qbm_redis.Floating.{Floating}
use qbm_redis.Wire.{Args}
use qbm_redis.Outcome.{Outcome, ok, IsCaught}
use qbm_redis.Reply.{RedisReply}
use qbm_redis.Handler.{Reply, Handler, treply}
use qbm_redis.Handler.Laws.{given, treply-given}
use qbm_redis.Client.{Redis, command}
use qbm_redis.Client.Order.{Input, issue, receive, run, callbacks, received, run-receive}

-- With `n` callbacks that wait, no reply finds the queue empty.
abbrev pub Balanced : {D E : Type 0} → ℕ → List (Input D E) → Type 0
Balanced n [] = Unit
Balanced n (issue h name args ∷ is) = Balanced (suc n) is
Balanced zero (receive r ∷ is) = ⊥
Balanced (suc n) (receive r ∷ is) = Balanced n is

-- A callback that returns, whatever the reply.
abbrev pub Answers : {E : Type 0} → Handler E → Type 0
Answers {E} h = (r : RedisReply) → (e : E) × (h (some r) ≡ ok e)

module _ {T E : Type 0} (parse : RedisReply → Outcome T) (default : T) (func : Reply T → E) where
  -- The callback of a command returns, if its `parse` gives a value or a `ProtoError`.
  pub treply-Answers : ((r : RedisReply) → IsCaught (parse r)) → Answers (treply parse default func)
  treply-Answers safe r =
      (func (given default r (parse r)), treply-given parse default func r (safe r))

module _ {D E : Type 0} ⦃F : Floating D⦄ where
  -- What a run comes to: it returns, and the callbacks that wait are those that were not answered.
  abbrev pub Returns : List (Input D E) → Redis E → Type 0
  Returns is s =
      (es : List E) × (t : Redis E) × (run is s ≡ ok (es, t))
      × (length es ≡ length (received is))
      × (length t.replies + length (received is) ≡ length s.replies + length (callbacks is))

  receive-Returns :
      (r : RedisReply) (is : List (Input D E)) (out : Bytes) (h : Handler E) (hs : List (Handler E))
      → Answers h
      → Returns is (record { out = out; replies = hs })
      → Returns (receive r ∷ is) (record { out = out; replies = h ∷ hs })
  unfolding callbacks received
  receive-Returns r is out h hs a (es, t, p, n, q) = (
    (a r).0 ∷ es,
    t,
    run-receive r is out h hs (h (some r)) refl ∙ rw ((a r).1, p),
    omega arith,
    omega arith,
  )

  receive_step :
      (r : RedisReply) (is : List (Input D E)) (out : Bytes) (hs : List (Handler E))
      → ((s : Redis E) → Balanced (length s.replies) is → All Answers s.replies → Returns is s)
      → Balanced (length hs) (receive r ∷ is)
      → All Answers hs
      → Returns (receive r ∷ is) (record { out = out; replies = hs })
  receive_step r is out [] ih b a = absurd b
  receive_step r is out (h ∷ hs) ih b (ah, a) =
      receive-Returns r is out h hs ah (ih (record { out = out; replies = hs }) b a)

  length-command :
      (h : Handler E) (name : Bytes) (args : Args D) (s : Redis E)
      → length (command h name args s).replies ≡ suc (length s.replies)
  unfolding command
  length-command h name args s = omega (arith, length-append s.replies (h ∷ []))

  command-All :
      (h : Handler E) (name : Bytes) (args : Args D) (s : Redis E)
      → All Answers s.replies
      → Answers h
      → All Answers (command h name args s).replies
  unfolding command
  command-All h name args s a ah = All-append Answers s.replies (h ∷ []) a (ah, tt)

  issue-Returns :
      (h : Handler E) (name : Bytes) (args : Args D) (is : List (Input D E)) (s : Redis E)
      → Returns is (command h name args s)
      → Returns (issue h name args ∷ is) s
  unfolding run callbacks received
  issue-Returns h name args is s (es, t, p, n, q) =
      (es, t, p, n, omega (arith, length-command h name args s))

  -- If no reply comes before its command and every callback returns, the run returns: each reply was
  -- handed to one callback, and as many callbacks wait as commands were not answered.
  pub run-Returns :
      (is : List (Input D E)) (s : Redis E)
      → Balanced (length s.replies) is
      → All Answers s.replies
      → All Answers (callbacks is)
      → Returns is s
  unfolding run callbacks received
  run-Returns [] s b a c = ([], s, refl, refl, refl)
  run-Returns (issue h name args ∷ is) s b a (ch, c) = issue-Returns h name args is s (
      run-Returns is (command h name args s) (rw (length-command h name args s) b)
        (command-All h name args s a ch) c)
  run-Returns (receive r ∷ is) s b a c =
      receive_step r is s.out s.replies (λ u bu au. run-Returns is u bu au c) b a
