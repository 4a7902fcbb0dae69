-- ===== src/Commands/Streams/Syntax.antt =====
-- stream_commands.h: the stream commands against the syntax that the server documents.
use qbm_redis.Base.{Bool, true, false, List, [], ◌∷◌, ◌++◌, Option, none, some, Bytes, codes}
use qbm_redis.Base.Int.{ℤ}
use qbm_redis.Decimal.{to_string}
use qbm_redis.Floating.{Floating}
use qbm_redis.Wire.{Args}
use qbm_redis.Wire.Words.{words_of}
use qbm_redis.Commands.Arguments.Laws.{clause, named, key_values, option_words}

-- A call of a method, with its arguments.
pub data StreamCommand (D : Type 0) : Type 0 where
  xadd : Bytes → List (Bytes × Bytes) → Option Bytes → StreamCommand D
  xadd_func : Bytes → List (Bytes × Bytes) → Option Bytes → StreamCommand D
  xlen : Bytes → StreamCommand D
  xdel : Bytes → Args D → StreamCommand D
  xtrim : Bytes → ℤ → Bool → StreamCommand D
  xread : Bytes → Bytes → Option ℤ → Option ℤ → StreamCommand D
  xread_of_keys : List Bytes → List Bytes → Option ℤ → Option ℤ → StreamCommand D
  xinfo_stream : Bytes → StreamCommand D
  xinfo_help : StreamCommand D
  xgroup_create : Bytes → Bytes → Bytes → Bool → StreamCommand D
  xgroup_destroy : Bytes → Bytes → StreamCommand D
  xgroup_delconsumer : Bytes → Bytes → Bytes → StreamCommand D
  xack : Bytes → Bytes → Args D → StreamCommand D
  xreadgroup : Bytes → Bytes → Bytes → Bytes → Option ℤ → Option ℤ → StreamCommand D
  xreadgroup_of_keys :
      List Bytes → Bytes → Bytes → List Bytes → Option ℤ → Option ℤ → StreamCommand D
  xinfo_groups : Bytes → StreamCommand D
  xinfo_consumers : Bytes → Bytes → StreamCommand D
  xpending : Bytes → Bytes → Bytes → Bytes → ℤ → Option Bytes → StreamCommand D

-- The id of a new entry, or the one that the server chooses.
unfoldable pub id_word : Option Bytes → Bytes
id_word none = codes "*"
id_word (some id) = id

unfoldable pub trim_words : Bytes → ℤ → Bool → List Bytes
trim_words key n true = key ∷ codes "MAXLEN" ∷ codes "~" ∷ to_string n ∷ []
trim_words key n false = key ∷ codes "MAXLEN" ∷ codes "=" ∷ to_string n ∷ []

unfoldable pub create_words : Bytes → Bytes → Bytes → Bool → List Bytes
unfolding clause
create_words key group id mkstream =
    codes "CREATE" ∷ key ∷ group ∷ id ∷ clause mkstream (codes "MKSTREAM" ∷ [])

unfoldable pub group_words : Bytes → Bytes → Option ℤ → Option ℤ → List Bytes
unfolding named
group_words group consumer count block =
    codes "GROUP" ∷ group ∷ consumer ∷ (named (codes "COUNT") count ++ named (codes "BLOCK") block)

unfoldable pub pending_words : Bytes → Bytes → Bytes → Bytes → ℤ → Option Bytes → List Bytes
unfolding option_words
pending_words key group start last n consumer =
    key ∷ group ∷ start ∷ last ∷ to_string n ∷ option_words consumer

module _ {D : Type 0} ⦃F : Floating D⦄ where
  -- The words of the documented syntax.
  unfoldable pub syntax : StreamCommand D → List Bytes
  unfolding words_of named key_values
  syntax (xadd key entries id) = codes "XADD" ∷ key ∷ (id_word id) ∷ key_values entries
  syntax (xadd_func key entries id) = codes "XADD" ∷ key ∷ (id_word id) ∷ key_values entries
  syntax (xlen key) = codes "XLEN" ∷ key ∷ []
  syntax (xdel key ids) = codes "XDEL" ∷ key ∷ words_of ids
  syntax (xtrim key maxlen approximate) = codes "XTRIM" ∷ trim_words key maxlen approximate
  syntax (xread key id count block) =
      codes "XREAD"
      ∷ ((named (codes "COUNT") count ++ named (codes "BLOCK") block)
          ++ codes "STREAMS" ∷ key ∷ id ∷ [])
  syntax (xread_of_keys keys ids count block) =
      codes "XREAD"
      ∷ ((named (codes "COUNT") count ++ named (codes "BLOCK") block)
          ++ codes "STREAMS" ∷ (keys ++ ids))
  syntax (xinfo_stream key) = codes "XINFO" ∷ codes "STREAM" ∷ key ∷ []
  syntax xinfo_help = codes "XINFO" ∷ codes "HELP" ∷ []
  syntax (xgroup_create key group id mkstream) = codes "XGROUP" ∷ create_words key group id mkstream
  syntax (xgroup_destroy key group) = codes "XGROUP" ∷ codes "DESTROY" ∷ key ∷ group ∷ []
  syntax (xgroup_delconsumer key group consumer) =
      codes "XGROUP" ∷ codes "DELCONSUMER" ∷ key ∷ group ∷ consumer ∷ []
  syntax (xack key group ids) = codes "XACK" ∷ key ∷ group ∷ words_of ids
  syntax (xreadgroup key group consumer id count block) =
      codes "XREADGROUP"
      ∷ ((group_words group consumer count block) ++ codes "STREAMS" ∷ key ∷ id ∷ [])
  syntax (xreadgroup_of_keys keys group consumer ids count block) =
      codes "XREADGROUP"
      ∷ ((group_words group consumer count block) ++ codes "STREAMS" ∷ (keys ++ ids))
  syntax (xinfo_groups key) = codes "XINFO" ∷ codes "GROUPS" ∷ key ∷ []
  syntax (xinfo_consumers key group) = codes "XINFO" ∷ codes "CONSUMERS" ∷ key ∷ group ∷ []
  syntax (xpending key group start last count consumer) =
      codes "XPENDING" ∷ pending_words key group start last count consumer
