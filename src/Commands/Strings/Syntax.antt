-- ===== src/Commands/Strings/Syntax.antt =====
-- string_commands.h: the string commands against the syntax that the server documents.
use qbm_redis.Base.{◌≡◌, refl, ap, ◌∙◌, List, [], ◌∷◌, append-nil, Bytes, codes, arith}
use qbm_redis.Base.Int.{ℤ}
use qbm_redis.Decimal.{to_string}
use qbm_redis.Floating.{Floating}
use qbm_redis.Types.{UpdateType, exist, not_exist, always}
use qbm_redis.Wire.{Args, redis_count}
use qbm_redis.Wire.Words.{words, words_of}
use qbm_redis.Wire.Counting.{AllUniform}
use qbm_redis.Commands.{AnyRequest, any, packed_request}
use qbm_redis.Commands.Strings
use qbm_redis.Commands.Arguments.{string_args, pair_args}
use qbm_redis.Commands.Arguments.Laws.{
  key_values, string_args-counts, pair_args-counts, string_args-words, pair_args-words,
}

-- A call of a method.
pub data StringCommand (D : Type 0) : Type 0 where
  append getset setnx : Bytes → Bytes → StringCommand D
  decr get incr strlen getdel : Bytes → StringCommand D
  decrby incrby : Bytes → ℤ → StringCommand D
  getrange : Bytes → ℤ → ℤ → StringCommand D
  incrbyfloat : Bytes → D → StringCommand D
  mget : Bytes → List Bytes → StringCommand D
  mset msetnx : Bytes × Bytes → List (Bytes × Bytes) → StringCommand D
  psetex setex setrange : Bytes → ℤ → Bytes → StringCommand D
  set : Bytes → Bytes → UpdateType → StringCommand D
  set_ttl : Bytes → Bytes → ℤ → UpdateType → StringCommand D
  getex getex_milliseconds : Bytes → ℤ → StringCommand D
  lcs : Bytes → Bytes → StringCommand D

-- The condition at the end of a SET.
unfoldable pub condition : UpdateType → List Bytes
condition exist = codes "XX" ∷ []
condition not_exist = codes "NX" ∷ []
condition always = []

module _ {D : Type 0} ⦃F : Floating D⦄ where
  -- The words of the documented syntax.
  unfoldable pub syntax : StringCommand D → List Bytes
  unfolding condition key_values
  syntax (append key val) = codes "APPEND" ∷ key ∷ val ∷ []
  syntax (getset key val) = codes "GETSET" ∷ key ∷ val ∷ []
  syntax (setnx key val) = codes "SETNX" ∷ key ∷ val ∷ []
  syntax (decr key) = codes "DECR" ∷ key ∷ []
  syntax (get key) = codes "GET" ∷ key ∷ []
  syntax (incr key) = codes "INCR" ∷ key ∷ []
  syntax (strlen key) = codes "STRLEN" ∷ key ∷ []
  syntax (getdel key) = codes "GETDEL" ∷ key ∷ []
  syntax (decrby key n) = codes "DECRBY" ∷ key ∷ to_string n ∷ []
  syntax (incrby key n) = codes "INCRBY" ∷ key ∷ to_string n ∷ []
  syntax (getrange key a b) = codes "GETRANGE" ∷ key ∷ to_string a ∷ to_string b ∷ []
  syntax (incrbyfloat key x) = codes "INCRBYFLOAT" ∷ key ∷ F.show x ∷ []
  syntax (mget key keys) = codes "MGET" ∷ key ∷ keys
  syntax (mset e es) = codes "MSET" ∷ key_values (e ∷ es)
  syntax (msetnx e es) = codes "MSETNX" ∷ key_values (e ∷ es)
  syntax (psetex key n val) = codes "PSETEX" ∷ key ∷ to_string n ∷ val ∷ []
  syntax (setex key n val) = codes "SETEX" ∷ key ∷ to_string n ∷ val ∷ []
  syntax (setrange key n val) = codes "SETRANGE" ∷ key ∷ to_string n ∷ val ∷ []
  syntax (set key val t) = codes "SET" ∷ key ∷ val ∷ condition t
  syntax (set_ttl key val n t) = codes "SET" ∷ key ∷ val ∷ codes "PX" ∷ to_string n ∷ condition t
  syntax (getex key n) = codes "GETEX" ∷ key ∷ codes "EX" ∷ to_string n ∷ []
  syntax (getex_milliseconds key n) = codes "GETEX" ∷ key ∷ codes "PX" ∷ to_string n ∷ []
  syntax (lcs a b) = codes "LCS" ∷ a ∷ b ∷ []

  -- The request of the method.
  unfoldable pub requested : StringCommand D → AnyRequest D
  unfolding Strings.append Strings.getset Strings.setnx Strings.decr Strings.get Strings.incr
      Strings.strlen Strings.getdel Strings.decrby Strings.incrby Strings.getrange
      Strings.incrbyfloat Strings.mget_request Strings.mset Strings.msetnx_request Strings.psetex
      Strings.setex Strings.setrange Strings.set Strings.set_ttl Strings.getex
      Strings.getex_milliseconds Strings.lcs
  requested (append key val) = any (Strings.append key val)
  requested (getset key val) = any (Strings.getset key val)
  requested (setnx key val) = any (Strings.setnx key val)
  requested (decr key) = any (Strings.decr key)
  requested (get key) = any (Strings.get key)
  requested (incr key) = any (Strings.incr key)
  requested (strlen key) = any (Strings.strlen key)
  requested (getdel key) = any (Strings.getdel key)
  requested (decrby key n) = any (Strings.decrby key n)
  requested (incrby key n) = any (Strings.incrby key n)
  requested (getrange key a b) = any (Strings.getrange key a b)
  requested (incrbyfloat key x) = any (Strings.incrbyfloat key x)
  requested (mget key keys) = any (Strings.mget_request (key ∷ keys))
  requested (mset e es) = any (Strings.mset (e ∷ es))
  requested (msetnx e es) = any (Strings.msetnx_request (e ∷ es))
  requested (psetex key n val) = any (Strings.psetex key n val)
  requested (setex key n val) = any (Strings.setex key n val)
  requested (setrange key n val) = any (Strings.setrange key n val)
  requested (set key val t) = any (Strings.set key val t)
  requested (set_ttl key val n t) = any (Strings.set_ttl key val n t)
  requested (getex key n) = any (Strings.getex key n)
  requested (getex_milliseconds key n) = any (Strings.getex_milliseconds key n)
  requested (lcs a b) = any (Strings.lcs a b)

  -- The arguments of `put_in_pipe` that the method comes to.
  abbrev pub packed : StringCommand D → Args D
  packed c = packed_request (requested c)

module _ {D : Type 0} ⦃F : Floating D⦄ where
  pub packed-AllUniform : (c : StringCommand D) → AllUniform (packed c)
  unfolding requested redis_count
  packed-AllUniform (mget key keys) = (tt, ((tt, string_args-counts D keys), tt))
  packed-AllUniform (mset (k, v) es) = (tt, (((refl, tt, refl, tt), pair_args-counts D es), tt))
  packed-AllUniform (msetnx (k, v) es) = (tt, (((refl, tt, refl, tt), pair_args-counts D es), tt))
  packed-AllUniform (set key val exist) = omega arith
  packed-AllUniform (set key val not_exist) = omega arith
  packed-AllUniform (set key val always) = omega arith
  packed-AllUniform (set_ttl key val n exist) = omega arith
  packed-AllUniform (set_ttl key val n not_exist) = omega arith
  packed-AllUniform (set_ttl key val n always) = omega arith
  packed-AllUniform _ = omega arith

  pub packed-syntax : (c : StringCommand D) → words_of (packed c) ≡ syntax c
  unfolding requested words syntax
  packed-syntax (mget key keys) =
      ap (λ r. codes "MGET" ∷ key ∷ r)
        (append-nil (words_of (string_args keys)) ∙ string_args-words D keys)
  packed-syntax (mset (k, v) es) =
      ap (λ r. codes "MSET" ∷ k ∷ v ∷ r)
        (append-nil (words_of (pair_args es)) ∙ pair_args-words D es)
  packed-syntax (msetnx (k, v) es) =
      ap (λ r. codes "MSETNX" ∷ k ∷ v ∷ r)
        (append-nil (words_of (pair_args es)) ∙ pair_args-words D es)
  packed-syntax (set key val exist) = refl
  packed-syntax (set key val not_exist) = refl
  packed-syntax (set key val always) = refl
  packed-syntax (set_ttl key val n exist) = refl
  packed-syntax (set_ttl key val n not_exist) = refl
  packed-syntax (set_ttl key val n always) = refl
  packed-syntax _ = refl
