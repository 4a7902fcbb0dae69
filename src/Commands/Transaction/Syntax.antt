-- ===== src/Commands/Transaction/Syntax.antt =====
-- transaction_commands.h: the commands against the syntax that the server documents. EXEC is looked
-- at for results that are read as JSON values.
use qbm_redis.Base.{◌≡◌, refl, ap, ◌∙◌, List, [], ◌∷◌, append-nil, Bytes, codes, arith}
use qbm_redis.Floating.{Floating}
use qbm_redis.Wire.{Args, redis_count}
use qbm_redis.Wire.Words.{words_of, words}
use qbm_redis.Wire.Counting.{AllUniform}
use qbm_redis.Outcome.{IsCaught}
use qbm_redis.Reply.{RedisReply}
use qbm_redis.Reply.Scalars.Laws.{parse_status-IsCaught}
use qbm_redis.Reply.Containers.Laws.{parse_sequence-Caught}
use qbm_redis.Reply.Json.{JsonText, parse_json}
use qbm_redis.Reply.Json.Laws.{parse_json-IsCaught}
use qbm_redis.Commands.{AnyRequest, any, packed_request, parse_request}
use qbm_redis.Commands.Arguments.{string_args}
use qbm_redis.Commands.Arguments.Laws.{string_args-words, string_args-counts}
use qbm_redis.Commands.Transaction.{multi_request, exec_request, discard_request}
use qbm_redis.Commands.Transaction as Transaction

-- A call of a method, with its arguments, that sends a command: `watch` has a key.
pub data TransactionCommand (D : Type 0) : Type 0 where
  multi exec discard unwatch : TransactionCommand D
  watch : Bytes → List Bytes → TransactionCommand D

-- The words of the documented syntax.
unfoldable pub syntax : {D : Type 0} → TransactionCommand D → List Bytes
syntax multi = codes "MULTI" ∷ []
syntax exec = codes "EXEC" ∷ []
syntax discard = codes "DISCARD" ∷ []
syntax unwatch = codes "UNWATCH" ∷ []
syntax (watch key keys) = codes "WATCH" ∷ key ∷ keys

module _ {D : Type 0} ⦃F : Floating D⦄ ⦃J : JsonText D⦄ where
  unfoldable pub requested : TransactionCommand D → AnyRequest D
  unfolding multi_request exec_request discard_request Transaction.unwatch Transaction.watch_request
  requested multi = any multi_request
  requested exec = any (exec_request (parse_json {D = D}))
  requested discard = any discard_request
  requested unwatch = any Transaction.unwatch
  requested (watch key keys) = any (Transaction.watch_request (key ∷ keys))

  abbrev pub packed : TransactionCommand D → Args D
  packed c = packed_request (requested c)

  pub packed-AllUniform : (c : TransactionCommand D) → AllUniform (packed c)
  unfolding requested redis_count string_args
  packed-AllUniform (watch key keys) = (tt, ((tt, string_args-counts D keys), tt))
  packed-AllUniform _ = omega arith

  pub packed-syntax : (c : TransactionCommand D) → words_of (packed c) ≡ syntax c
  unfolding requested words syntax string_args
  packed-syntax (watch key keys) =
      ap (λ r. codes "WATCH" ∷ key ∷ r)
        (append-nil (words_of (string_args keys)) ∙ string_args-words D keys)
  packed-syntax multi = refl
  packed-syntax exec = refl
  packed-syntax discard = refl
  packed-syntax unwatch = refl

  -- The `parse` of every method gives a value or a `ProtoError`.
  pub requested-IsCaught :
      (c : TransactionCommand D) (r : RedisReply) → IsCaught (parse_request (requested c) r)
  unfolding requested
  requested-IsCaught exec r = parse_sequence-Caught (parse_json {D = D}) (parse_json-IsCaught D) r
  requested-IsCaught multi r = parse_status-IsCaught r
  requested-IsCaught discard r = parse_status-IsCaught r
  requested-IsCaught unwatch r = parse_status-IsCaught r
  requested-IsCaught (watch key keys) r = parse_status-IsCaught r
