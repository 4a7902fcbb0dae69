-- ===== src/Commands/Sets/Syntax.antt =====
-- set_commands.h: the set commands against the syntax that the server documents.
use qbm_redis.Base.{
  ◌≡◌, refl, ap, ◌∙◌, List, [], ◌∷◌, ◌++◌, append-nil, Option, none, some, Bytes, codes, arith,
  length,
}
use qbm_redis.Base.Int.{ℤ, pos}
use qbm_redis.Decimal.{to_string}
use qbm_redis.Floating.{Floating}
use qbm_redis.Wire.{Args, redis_count}
use qbm_redis.Wire.Words.{words, words_of}
use qbm_redis.Wire.Counting.{AllUniform}
use qbm_redis.Commands.{AnyRequest, any, packed_request}
use qbm_redis.Commands.Arguments.{string_args}
use qbm_redis.Commands.Arguments.Laws.{string_list-IsUniform, string_args-words}
use qbm_redis.Commands.Sets.Members
use qbm_redis.Commands.Sets.Algebra
use qbm_redis.Commands.Sets.Algebra.{limit_args}

-- A call of a method; `sadd`, `srem` and `smismember` have any members, with their types.
pub data SetCommand (D : Type 0) : Type 0 where
  sadd : Bytes → Args D → SetCommand D
  srem : Bytes → Args D → SetCommand D
  smismember : Bytes → Args D → SetCommand D
  scard : Bytes → SetCommand D
  sismember : Bytes → Bytes → SetCommand D
  smembers : Bytes → SetCommand D
  smove : Bytes → Bytes → Bytes → SetCommand D
  spop : Bytes → SetCommand D
  srandmember : Bytes → SetCommand D
  spop_count : Bytes → ℤ → SetCommand D
  srandmember_count : Bytes → ℤ → SetCommand D
  sscan : Bytes → ℤ → Bytes → ℤ → SetCommand D
  sdiff : List Bytes → SetCommand D
  sinter : List Bytes → SetCommand D
  sunion : List Bytes → SetCommand D
  sdiffstore : Bytes → List Bytes → SetCommand D
  sinterstore : Bytes → List Bytes → SetCommand D
  sunionstore : Bytes → List Bytes → SetCommand D
  sintercard : List Bytes → Option ℤ → SetCommand D

-- The option of SINTERCARD.
unfoldable pub limit_words : Option ℤ → List Bytes
limit_words none = []
limit_words (some n) = codes "LIMIT" ∷ to_string n ∷ []

module _ {D : Type 0} ⦃F : Floating D⦄ where
  -- The words of the documented syntax.
  unfoldable pub syntax : SetCommand D → List Bytes
  unfolding words_of limit_words
  syntax (sadd key members) = codes "SADD" ∷ key ∷ words_of members
  syntax (srem key members) = codes "SREM" ∷ key ∷ words_of members
  syntax (smismember key members) = codes "SMISMEMBER" ∷ key ∷ words_of members
  syntax (scard key) = codes "SCARD" ∷ key ∷ []
  syntax (sismember key member) = codes "SISMEMBER" ∷ key ∷ member ∷ []
  syntax (smembers key) = codes "SMEMBERS" ∷ key ∷ []
  syntax (smove source target member) = codes "SMOVE" ∷ source ∷ target ∷ member ∷ []
  syntax (spop key) = codes "SPOP" ∷ key ∷ []
  syntax (srandmember key) = codes "SRANDMEMBER" ∷ key ∷ []
  syntax (spop_count key n) = codes "SPOP" ∷ key ∷ to_string n ∷ []
  syntax (srandmember_count key n) = codes "SRANDMEMBER" ∷ key ∷ to_string n ∷ []
  syntax (sscan key cursor pattern n) =
      codes "SSCAN"
      ∷ key
      ∷ to_string cursor
      ∷ codes "MATCH"
      ∷ pattern
      ∷ codes "COUNT"
      ∷ to_string n
      ∷ []
  syntax (sdiff keys) = codes "SDIFF" ∷ keys
  syntax (sinter keys) = codes "SINTER" ∷ keys
  syntax (sunion keys) = codes "SUNION" ∷ keys
  syntax (sdiffstore target keys) = codes "SDIFFSTORE" ∷ target ∷ keys
  syntax (sinterstore target keys) = codes "SINTERSTORE" ∷ target ∷ keys
  syntax (sunionstore target keys) = codes "SUNIONSTORE" ∷ target ∷ keys
  syntax (sintercard keys limit) =
      codes "SINTERCARD" ∷ to_string (pos (length keys)) ∷ (keys ++ limit_words limit)

module _ {D : Type 0} where
  -- The request of the method.
  unfoldable pub requested : SetCommand D → AnyRequest D
  unfolding Members.sadd_request Members.srem_request Members.smismember_request
      Members.scard_request Members.sismember_request Members.smembers_request Members.smove_request
      Members.spop_request Members.srandmember_request Members.spop_count_request
      Members.srandmember_count_request Members.sscan_request Algebra.sdiff_request
      Algebra.sinter_request Algebra.sunion_request Algebra.sdiffstore_request
      Algebra.sinterstore_request Algebra.sunionstore_request Algebra.sintercard_request
  requested (sadd key members) = any (Members.sadd_request key members)
  requested (srem key members) = any (Members.srem_request key members)
  requested (smismember key members) = any (Members.smismember_request key members)
  requested (scard key) = any (Members.scard_request key)
  requested (sismember key member) = any (Members.sismember_request key member)
  requested (smembers key) = any (Members.smembers_request key)
  requested (smove source target member) = any (Members.smove_request source target member)
  requested (spop key) = any (Members.spop_request key)
  requested (srandmember key) = any (Members.srandmember_request key)
  requested (spop_count key n) = any (Members.spop_count_request key n)
  requested (srandmember_count key n) = any (Members.srandmember_count_request key n)
  requested (sscan key cursor pattern n) = any (Members.sscan_request key cursor pattern n)
  requested (sdiff keys) = any (Algebra.sdiff_request keys)
  requested (sinter keys) = any (Algebra.sinter_request keys)
  requested (sunion keys) = any (Algebra.sunion_request keys)
  requested (sdiffstore target keys) = any (Algebra.sdiffstore_request target keys)
  requested (sinterstore target keys) = any (Algebra.sinterstore_request target keys)
  requested (sunionstore target keys) = any (Algebra.sunionstore_request target keys)
  requested (sintercard keys limit) = any (Algebra.sintercard_request keys limit)

  -- The arguments of `put_in_pipe` that the method comes to.
  abbrev pub packed : SetCommand D → Args D
  packed c = packed_request (requested c)

  -- The members are uniform.
  abbrev pub HasUniform : SetCommand D → Type 0
  HasUniform (sadd key members) = AllUniform members
  HasUniform (srem key members) = AllUniform members
  HasUniform (smismember key members) = AllUniform members
  HasUniform _ = Unit

  pub packed-AllUniform : (c : SetCommand D) → HasUniform c → AllUniform (packed c)
  unfolding requested redis_count
  packed-AllUniform (sadd key members) u = (tt, (tt, u))
  packed-AllUniform (srem key members) u = (tt, (tt, u))
  packed-AllUniform (smismember key members) u = (tt, (tt, u))
  packed-AllUniform (sdiff keys) u = (tt, (string_list-IsUniform D keys, tt))
  packed-AllUniform (sinter keys) u = (tt, (string_list-IsUniform D keys, tt))
  packed-AllUniform (sunion keys) u = (tt, (string_list-IsUniform D keys, tt))
  packed-AllUniform (sdiffstore target keys) u = (tt, (tt, (string_list-IsUniform D keys, tt)))
  packed-AllUniform (sinterstore target keys) u = (tt, (tt, (string_list-IsUniform D keys, tt)))
  packed-AllUniform (sunionstore target keys) u = (tt, (tt, (string_list-IsUniform D keys, tt)))
  packed-AllUniform (sintercard keys limit) u =
      (tt, (tt, (string_list-IsUniform D keys, (string_list-IsUniform D (limit_args limit), tt))))
  packed-AllUniform _ u = omega arith

limit_args-words : (limit : Option ℤ) → limit_args limit ≡ limit_words limit
unfolding limit_args limit_words
limit_args-words none = refl
limit_args-words (some n) = refl

module _ (D : Type 0) ⦃F : Floating D⦄ where
  last_list : (ss : List Bytes) → words_of {D = D} (string_args ss) ++ [] ≡ ss
  last_list ss = append-nil (words_of {D = D} (string_args ss)) ∙ string_args-words D ss

module _ {D : Type 0} ⦃F : Floating D⦄ where
  pub packed-syntax : (c : SetCommand D) → words_of (packed c) ≡ syntax c
  unfolding requested words syntax
  packed-syntax (sdiff keys) = ap (λ ws. codes "SDIFF" ∷ ws) (last_list D keys)
  packed-syntax (sinter keys) = ap (λ ws. codes "SINTER" ∷ ws) (last_list D keys)
  packed-syntax (sunion keys) = ap (λ ws. codes "SUNION" ∷ ws) (last_list D keys)
  packed-syntax (sdiffstore target keys) =
      ap (λ ws. codes "SDIFFSTORE" ∷ target ∷ ws) (last_list D keys)
  packed-syntax (sinterstore target keys) =
      ap (λ ws. codes "SINTERSTORE" ∷ target ∷ ws) (last_list D keys)
  packed-syntax (sunionstore target keys) =
      ap (λ ws. codes "SUNIONSTORE" ∷ target ∷ ws) (last_list D keys)
  packed-syntax (sintercard keys limit) =
      ap
        (λ ws.
          codes "SINTERCARD"
          ∷ to_string (pos (length keys))
          ∷ (ws ++ (words_of {D = D} (string_args (limit_args limit)) ++ [])))
        (string_args-words D keys)
      ∙ ap (λ ws. codes "SINTERCARD" ∷ to_string (pos (length keys)) ∷ (keys ++ ws))
          (last_list D (limit_args limit) ∙ limit_args-words limit)
  packed-syntax _ = refl
