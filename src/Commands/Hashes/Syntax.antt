-- ===== src/Commands/Hashes/Syntax.antt =====
-- hash_commands.h: the hash commands against the syntax that the server documents.
use qbm_redis.Base.{◌≡◌, refl, List, [], ◌∷◌, Bytes, codes, arith}
use qbm_redis.Base.Int.{ℤ}
use qbm_redis.Decimal.{to_string}
use qbm_redis.Floating.{Floating}
use qbm_redis.Wire.{Args, redis_count}
use qbm_redis.Wire.Words.{words, words_of}
use qbm_redis.Wire.Counting.{AllUniform}
use qbm_redis.Commands.{AnyRequest, any, packed_request}
use qbm_redis.Commands.Hashes

-- A call of a method; `hdel`, `hmget` and `hmset` have any arguments, with their types.
pub data HashCommand (D : Type 0) : Type 0 where
  hdel hmget hmset : Bytes → Args D → HashCommand D
  hexists hget hstrlen : Bytes → Bytes → HashCommand D
  hgetall hkeys hlen hvals : Bytes → HashCommand D
  hincrby : Bytes → Bytes → ℤ → HashCommand D
  hincrbyfloat : Bytes → Bytes → D → HashCommand D
  hscan : Bytes → ℤ → Bytes → ℤ → HashCommand D
  hset hsetnx : Bytes → Bytes → Bytes → HashCommand D
  hset_item hsetnx_item : Bytes → Bytes × Bytes → HashCommand D

module _ {D : Type 0} ⦃F : Floating D⦄ where
  -- The words of the documented syntax.
  unfoldable pub syntax : HashCommand D → List Bytes
  unfolding words_of
  syntax (hdel key fields) = codes "HDEL" ∷ key ∷ words_of fields
  syntax (hmget key fields) = codes "HMGET" ∷ key ∷ words_of fields
  syntax (hmset key fields) = codes "HMSET" ∷ key ∷ words_of fields
  syntax (hexists key f) = codes "HEXISTS" ∷ key ∷ f ∷ []
  syntax (hget key f) = codes "HGET" ∷ key ∷ f ∷ []
  syntax (hstrlen key f) = codes "HSTRLEN" ∷ key ∷ f ∷ []
  syntax (hgetall key) = codes "HGETALL" ∷ key ∷ []
  syntax (hkeys key) = codes "HKEYS" ∷ key ∷ []
  syntax (hlen key) = codes "HLEN" ∷ key ∷ []
  syntax (hvals key) = codes "HVALS" ∷ key ∷ []
  syntax (hincrby key f n) = codes "HINCRBY" ∷ key ∷ f ∷ to_string n ∷ []
  syntax (hincrbyfloat key f x) = codes "HINCRBYFLOAT" ∷ key ∷ f ∷ F.show x ∷ []
  syntax (hscan key cursor pattern n) =
      codes "HSCAN"
      ∷ key
      ∷ to_string cursor
      ∷ codes "MATCH"
      ∷ pattern
      ∷ codes "COUNT"
      ∷ to_string n
      ∷ []
  syntax (hset key f val) = codes "HSET" ∷ key ∷ f ∷ val ∷ []
  syntax (hsetnx key f val) = codes "HSETNX" ∷ key ∷ f ∷ val ∷ []
  syntax (hset_item key (f, val)) = codes "HSET" ∷ key ∷ f ∷ val ∷ []
  syntax (hsetnx_item key (f, val)) = codes "HSETNX" ∷ key ∷ f ∷ val ∷ []

  -- The request of the method.
  unfoldable pub requested : HashCommand D → AnyRequest D
  unfolding Hashes.hdel Hashes.hmget Hashes.hmset Hashes.hexists Hashes.hget Hashes.hstrlen
      Hashes.hgetall Hashes.hkeys Hashes.hlen Hashes.hvals Hashes.hincrby Hashes.hincrbyfloat
      Hashes.hscan_request Hashes.hset Hashes.hsetnx Hashes.hset_item Hashes.hsetnx_item
  requested (hdel key fields) = any (Hashes.hdel key fields)
  requested (hmget key fields) = any (Hashes.hmget key fields)
  requested (hmset key fields) = any (Hashes.hmset key fields)
  requested (hexists key f) = any (Hashes.hexists key f)
  requested (hget key f) = any (Hashes.hget key f)
  requested (hstrlen key f) = any (Hashes.hstrlen key f)
  requested (hgetall key) = any (Hashes.hgetall key)
  requested (hkeys key) = any (Hashes.hkeys key)
  requested (hlen key) = any (Hashes.hlen key)
  requested (hvals key) = any (Hashes.hvals key)
  requested (hincrby key f n) = any (Hashes.hincrby key f n)
  requested (hincrbyfloat key f x) = any (Hashes.hincrbyfloat key f x)
  requested (hscan key cursor pattern n) = any (Hashes.hscan_request key cursor pattern n)
  requested (hset key f val) = any (Hashes.hset key f val)
  requested (hsetnx key f val) = any (Hashes.hsetnx key f val)
  requested (hset_item key item) = any (Hashes.hset_item key item)
  requested (hsetnx_item key item) = any (Hashes.hsetnx_item key item)

  -- The arguments of `put_in_pipe` that the method comes to.
  abbrev pub packed : HashCommand D → Args D
  packed c = packed_request (requested c)

  -- The fields and values are uniform.
  abbrev pub HasUniform : HashCommand D → Type 0
  HasUniform (hdel key fields) = AllUniform fields
  HasUniform (hmget key fields) = AllUniform fields
  HasUniform (hmset key fields) = AllUniform fields
  HasUniform _ = Unit

  pub packed-AllUniform : (c : HashCommand D) → HasUniform c → AllUniform (packed c)
  unfolding requested redis_count
  packed-AllUniform (hdel key fields) u = (tt, (tt, u))
  packed-AllUniform (hmget key fields) u = (tt, (tt, u))
  packed-AllUniform (hmset key fields) u = (tt, (tt, u))
  packed-AllUniform _ u = omega arith

  pub packed-syntax : (c : HashCommand D) → words_of (packed c) ≡ syntax c
  unfolding requested words syntax
  packed-syntax (hset_item key (f, val)) = refl
  packed-syntax (hsetnx_item key (f, val)) = refl
  packed-syntax _ = refl
