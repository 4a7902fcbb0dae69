-- ===== src/Handler/Laws.antt =====
-- reply.h, `TReply`: what its callback is called with.
use qbm_redis.Base.{◌≡◌, refl, true, [], some}
use qbm_redis.Outcome.{Outcome, ok, throw, fault, Exception, proto_error, parse_error, IsCaught}
use qbm_redis.Reply.{RedisReply}
use qbm_redis.Handler.{Reply, treply, failed}

-- A reply that was parsed.
abbrev pub succeeded : {T : Type 0} → RedisReply → T → Reply T
succeeded raw v = record { is_ok = true; result = v; raw = some raw; error = [] }

-- What the callback is given, by the outcome of the parse.
abbrev pub given : {T : Type 0} → T → RedisReply → Outcome T → Reply T
given default raw (ok v) = succeeded raw v
given default raw _ = failed default raw

module _ {T E : Type 0} (parse : RedisReply → Outcome T) (default : T) (func : Reply T → E) where
  treply_of :
      (r : RedisReply) (o : Outcome T)
      → parse r ≡ o
      → IsCaught o
      → treply parse default func (some r) ≡ ok (func (given default r o))
  unfolding treply
  treply_of r (ok v) p c = rw p
  treply_of r (throw (proto_error m)) p c = rw p
  treply_of r (throw (parse_error m)) p c = rw p
  treply_of r (throw (Exception.error m)) p c = absurd c
  treply_of r (throw (Exception.runtime_error m)) p c = absurd c
  treply_of r fault p c = absurd c

  -- The callback is called once, with the value or with the text of the reply.
  pub treply-given :
      (r : RedisReply)
      → IsCaught (parse r)
      → treply parse default func (some r) ≡ ok (func (given default r (parse r)))
  treply-given r c = treply_of r (parse r) refl c
