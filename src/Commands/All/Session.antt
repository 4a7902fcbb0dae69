-- ===== src/Commands/All/Session.antt =====
-- redis.h and the command classes: a client on which methods of any class are called, and to which
-- replies arrive.
use qbm_redis.Base.{if◌then◌else◌, List, [], ◌∷◌, All}
use qbm_redis.Floating.{Floating}
use qbm_redis.Reply.{RedisReply}
use qbm_redis.Reply.Json.{JsonText}
use qbm_redis.Handler.{Reply, treply}
use qbm_redis.Client.{Redis}
use qbm_redis.Client.Order.{Input, issue, receive}
use qbm_redis.Commands.{parse_request}
use qbm_redis.Commands.All.Refusals.{is_refused}
use qbm_redis.Commands.All.{AnyCommand, requested}

module _ (D E : Type 0) ⦃F : Floating D⦄ ⦃J : JsonText D⦄ where
  -- A method is called with a callback, or a reply arrives. A reply holds the value of the second
  -- argument, `Ret{}`, where it could not be parsed. (`xadd`, `zrangebylex` and `zrangebyscore` stand for
  -- what the overloads that wait ask for, with the callback that stores the reply.)
  pub data Event : Type 0 where
    call : (c : AnyCommand D) → (requested c).Result → (Reply (requested c).Result → E) → Event
    arrive : RedisReply → Event

  -- `command<Ret>(func, name, args...)`
  unfoldable pub issued :
      (c : AnyCommand D) → (requested c).Result → (Reply (requested c).Result → E) → Input D E
  unfolding requested
  issued c default func =
      issue (treply (parse_request (requested c)) default func) (requested c).request.name
        (requested c).request.args

  -- What the events come to at the client: a call that returns early, or throws, leaves it alone.
  unfoldable pub inputs : List Event → List (Input D E)
  unfolding issued is_refused
  inputs [] = []
  inputs (call c default func ∷ es) =
      let rest = inputs es in if is_refused c then rest else issued c default func ∷ rest
  inputs (arrive r ∷ es) = receive r ∷ inputs es

  -- The commands of the calls that send one.
  unfoldable pub called : List Event → List (AnyCommand D)
  unfolding is_refused
  called [] = []
  called (call c default func ∷ es) =
      let rest = called es in if is_refused c then rest else c ∷ rest
  called (arrive r ∷ es) = called es

  abbrev fresh : Redis E
  fresh = record { out = []; replies = [] }
