-- ===== src/Commands/Lists/Syntax.antt =====
-- list_commands.h: the list commands against the syntax that the server documents.
use qbm_redis.Base.{
  ◌≡◌, refl, ap, ◌∙◌, List, [], ◌∷◌, ◌++◌, append-nil, Option, none, some, String, Bytes, codes,
  arith,
}
use qbm_redis.Base.Int.{ℤ}
use qbm_redis.Decimal.{to_string}
use qbm_redis.Floating.{Floating}
use qbm_redis.Types.{InsertPosition, before, after, ListPosition, left, right}
use qbm_redis.Wire.{Args, end, arg, str, redis_count}
use qbm_redis.Wire.Words.{words, words_of}
use qbm_redis.Wire.Counting.{AllUniform}
use qbm_redis.Commands.{AnyRequest, any, packed_request}
use qbm_redis.Commands.Arguments.{string_args}
use qbm_redis.Commands.Arguments.Laws.{string_list-IsUniform, string_args-words}
use qbm_redis.Commands.Lists.Ends
use qbm_redis.Commands.Lists.Items
use qbm_redis.Commands.Lists.Items.{lpos_args}

-- A call of a method; a push has any values, with their types.
pub data ListCommand (D : Type 0) : Type 0 where
  llen lpop rpop : Bytes → ListCommand D
  lpush lpushx rpush : Bytes → Args D → ListCommand D
  rpushx : Bytes → Bytes → ListCommand D
  lpop_count rpop_count lindex : Bytes → ℤ → ListCommand D
  blpop brpop : List Bytes → ℤ → ListCommand D
  linsert : Bytes → InsertPosition → Bytes → Bytes → ListCommand D
  lrange ltrim : Bytes → ℤ → ℤ → ListCommand D
  lrem lset : Bytes → ℤ → Bytes → ListCommand D
  rpoplpush : Bytes → Bytes → ListCommand D
  lmove : Bytes → Bytes → ListPosition → ListPosition → ListCommand D
  lpos : Bytes → Bytes → Option ℤ → Option ℤ → Option ℤ → ListCommand D

-- An option of LPOS.
unfoldable pub named : String → Option ℤ → List Bytes
named name none = []
named name (some n) = codes name ∷ to_string n ∷ []

unfoldable pub or_zero : Option ℤ → Bytes
or_zero none = codes "0"
or_zero (some n) = to_string n

abbrev pub where_text : InsertPosition → Bytes
where_text before = codes "BEFORE"
where_text after = codes "AFTER"

abbrev pub end_text : ListPosition → Bytes
end_text left = codes "LEFT"
end_text right = codes "RIGHT"

module _ {D : Type 0} ⦃F : Floating D⦄ where
  -- The words of the documented syntax.
  unfoldable pub syntax : ListCommand D → List Bytes
  unfolding named or_zero words_of
  syntax (llen key) = codes "LLEN" ∷ key ∷ []
  syntax (lpop key) = codes "LPOP" ∷ key ∷ []
  syntax (rpop key) = codes "RPOP" ∷ key ∷ []
  syntax (lpush key values) = codes "LPUSH" ∷ key ∷ words_of values
  syntax (lpushx key values) = codes "LPUSHX" ∷ key ∷ words_of values
  syntax (rpush key values) = codes "RPUSH" ∷ key ∷ words_of values
  syntax (rpushx key val) = codes "RPUSHX" ∷ key ∷ val ∷ []
  syntax (lpop_count key n) = codes "LPOP" ∷ key ∷ to_string n ∷ []
  syntax (rpop_count key n) = codes "RPOP" ∷ key ∷ to_string n ∷ []
  syntax (lindex key n) = codes "LINDEX" ∷ key ∷ to_string n ∷ []
  syntax (blpop keys n) = codes "BLPOP" ∷ (keys ++ to_string n ∷ [])
  syntax (brpop keys n) = codes "BRPOP" ∷ (keys ++ to_string n ∷ [])
  syntax (linsert key at pivot val) = codes "LINSERT" ∷ key ∷ where_text at ∷ pivot ∷ val ∷ []
  syntax (lrange key a b) = codes "LRANGE" ∷ key ∷ to_string a ∷ to_string b ∷ []
  syntax (ltrim key a b) = codes "LTRIM" ∷ key ∷ to_string a ∷ to_string b ∷ []
  syntax (lrem key n val) = codes "LREM" ∷ key ∷ to_string n ∷ val ∷ []
  syntax (lset key n val) = codes "LSET" ∷ key ∷ to_string n ∷ val ∷ []
  syntax (rpoplpush source target) = codes "RPOPLPUSH" ∷ source ∷ target ∷ []
  syntax (lmove source target from into) =
      codes "LMOVE" ∷ source ∷ target ∷ end_text from ∷ end_text into ∷ []
  syntax (lpos key val rank n maxlen) =
      codes "LPOS"
      ∷ key
      ∷ val
      ∷ (named "RANK" rank ++ (codes "COUNT" ∷ or_zero n ∷ named "MAXLEN" maxlen))

module _ {D : Type 0} where
  -- The arguments of `put_in_pipe` that the overload with a callback comes to.
  unfoldable pub requested : ListCommand D → AnyRequest D
  unfolding Ends.llen_request Ends.lpop_request Ends.rpop_request Ends.lpush_request
      Ends.lpushx_request Ends.rpush_request Ends.rpushx_request Ends.lpop_count_request
      Ends.rpop_count_request Ends.blpop_request Ends.brpop_request Items.lindex_request
      Items.linsert_request Items.lrange_request Items.ltrim_request Items.lrem_request
      Items.lset_request Items.rpoplpush_request Items.lmove_request Items.lpos_request
  requested (llen key) = any (Ends.llen_request key)
  requested (lpop key) = any (Ends.lpop_request key)
  requested (rpop key) = any (Ends.rpop_request key)
  requested (lpush key values) = any (Ends.lpush_request key values)
  requested (lpushx key values) = any (Ends.lpushx_request key values)
  requested (rpush key values) = any (Ends.rpush_request key values)
  requested (rpushx key val) = any (Ends.rpushx_request key (arg (str val) end))
  requested (lpop_count key n) = any (Ends.lpop_count_request key n)
  requested (rpop_count key n) = any (Ends.rpop_count_request key n)
  requested (lindex key n) = any (Items.lindex_request key n)
  requested (blpop keys n) = any (Ends.blpop_request keys n)
  requested (brpop keys n) = any (Ends.brpop_request keys n)
  requested (linsert key at pivot val) = any (Items.linsert_request key at pivot val)
  requested (lrange key a b) = any (Items.lrange_request key a b)
  requested (ltrim key a b) = any (Items.ltrim_request key a b)
  requested (lrem key n val) = any (Items.lrem_request key n val)
  requested (lset key n val) = any (Items.lset_request key n val)
  requested (rpoplpush source target) = any (Items.rpoplpush_request source target)
  requested (lmove source target from into) = any (Items.lmove_request source target from into)
  requested (lpos key val rank n maxlen) = any (Items.lpos_request key val rank n maxlen)

  -- The arguments of `put_in_pipe` that the method comes to.
  abbrev pub packed : ListCommand D → Args D
  packed c = packed_request (requested c)

  -- The values of a push are uniform.
  abbrev pub HasUniform : ListCommand D → Type 0
  HasUniform (lpush key values) = AllUniform values
  HasUniform (lpushx key values) = AllUniform values
  HasUniform (rpush key values) = AllUniform values
  HasUniform _ = Unit

  pub packed-AllUniform : (c : ListCommand D) → HasUniform c → AllUniform (packed c)
  unfolding requested redis_count
  packed-AllUniform (lpush key values) u = (tt, (tt, u))
  packed-AllUniform (lpushx key values) u = (tt, (tt, u))
  packed-AllUniform (rpush key values) u = (tt, (tt, u))
  packed-AllUniform (blpop keys n) u = (tt, (string_list-IsUniform D keys, (tt, tt)))
  packed-AllUniform (brpop keys n) u = (tt, (string_list-IsUniform D keys, (tt, tt)))
  packed-AllUniform (lpos key val rank n maxlen) u =
      (tt, (tt, (tt, (string_list-IsUniform D (lpos_args rank n maxlen), tt))))
  packed-AllUniform _ u = omega arith

lpos_args-named :
    (rank n maxlen : Option ℤ)
    → lpos_args rank n maxlen
      ≡ named "RANK" rank ++ (codes "COUNT" ∷ or_zero n ∷ named "MAXLEN" maxlen)
unfolding lpos_args named or_zero
lpos_args-named none none none = refl
lpos_args-named none none (some m) = refl
lpos_args-named none (some n) none = refl
lpos_args-named none (some n) (some m) = refl
lpos_args-named (some r) none none = refl
lpos_args-named (some r) none (some m) = refl
lpos_args-named (some r) (some n) none = refl
lpos_args-named (some r) (some n) (some m) = refl

module _ {D : Type 0} ⦃F : Floating D⦄ where
  pub packed-syntax : (c : ListCommand D) → words_of (packed c) ≡ syntax c
  unfolding requested words syntax
  packed-syntax (blpop keys n) =
      ap (λ ws. codes "BLPOP" ∷ (ws ++ to_string n ∷ [])) (string_args-words D keys)
  packed-syntax (brpop keys n) =
      ap (λ ws. codes "BRPOP" ∷ (ws ++ to_string n ∷ [])) (string_args-words D keys)
  packed-syntax (lpos key val rank n maxlen) =
      ap (λ ws. codes "LPOS" ∷ key ∷ val ∷ ws)
        (append-nil (words_of (string_args (lpos_args rank n maxlen)))
          ∙ string_args-words D (lpos_args rank n maxlen)
          ∙ lpos_args-named rank n maxlen)
  packed-syntax (linsert key before pivot val) = refl
  packed-syntax (linsert key after pivot val) = refl
  packed-syntax (lmove source target left left) = refl
  packed-syntax (lmove source target left right) = refl
  packed-syntax (lmove source target right left) = refl
  packed-syntax (lmove source target right right) = refl
  packed-syntax _ = refl
