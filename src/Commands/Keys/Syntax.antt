-- ===== src/Commands/Keys/Syntax.antt =====
-- key_commands.h: the key commands against the syntax that the server documents.
use qbm_redis.Base.{Bool, List, [], ◌∷◌, Bytes, codes}
use qbm_redis.Base.Int.{ℤ}
use qbm_redis.Decimal.{to_string}
use qbm_redis.Floating.{Floating}
use qbm_redis.Wire.{Args}
use qbm_redis.Wire.Words.{words_of}
use qbm_redis.Commands.Arguments.Laws.{clause}

-- A call of a method, with its arguments.
pub data KeyCommand (D : Type 0) : Type 0 where
  del : Args D → KeyCommand D
  dump : Bytes → KeyCommand D
  exists : Args D → KeyCommand D
  expire : Bytes → ℤ → KeyCommand D
  expireat : Bytes → ℤ → KeyCommand D
  keys : Bytes → KeyCommand D
  move : Bytes → ℤ → KeyCommand D
  persist : Bytes → KeyCommand D
  pexpire : Bytes → ℤ → KeyCommand D
  pexpireat : Bytes → ℤ → KeyCommand D
  pttl : Bytes → KeyCommand D
  randomkey : KeyCommand D
  rename : Bytes → Bytes → KeyCommand D
  renamenx : Bytes → Bytes → KeyCommand D
  restore : Bytes → Bytes → ℤ → Bool → KeyCommand D
  scan : ℤ → Bytes → ℤ → KeyCommand D
  touch : Args D → KeyCommand D
  ttl : Bytes → KeyCommand D
  type : Bytes → KeyCommand D
  unlink : Args D → KeyCommand D
  wait : ℤ → ℤ → KeyCommand D

module _ {D : Type 0} ⦃F : Floating D⦄ where
  -- The words of the documented syntax.
  unfoldable pub syntax : KeyCommand D → List Bytes
  unfolding words_of clause
  syntax (del names) = codes "DEL" ∷ words_of names
  syntax (dump key) = codes "DUMP" ∷ key ∷ []
  syntax (exists names) = codes "EXISTS" ∷ words_of names
  syntax (expire key timeout) = codes "EXPIRE" ∷ key ∷ to_string timeout ∷ []
  syntax (expireat key timestamp) = codes "EXPIREAT" ∷ key ∷ to_string timestamp ∷ []
  syntax (keys pattern) = codes "KEYS" ∷ pattern ∷ []
  syntax (move key destination_db) = codes "MOVE" ∷ key ∷ to_string destination_db ∷ []
  syntax (persist key) = codes "PERSIST" ∷ key ∷ []
  syntax (pexpire key timeout) = codes "PEXPIRE" ∷ key ∷ to_string timeout ∷ []
  syntax (pexpireat key timestamp) = codes "PEXPIREAT" ∷ key ∷ to_string timestamp ∷ []
  syntax (pttl key) = codes "PTTL" ∷ key ∷ []
  syntax randomkey = codes "RANDOMKEY" ∷ []
  syntax (rename key new_key) = codes "RENAME" ∷ key ∷ new_key ∷ []
  syntax (renamenx key new_key) = codes "RENAMENX" ∷ key ∷ new_key ∷ []
  syntax (restore key val time replace) =
      codes "RESTORE" ∷ key ∷ to_string time ∷ val ∷ clause replace (codes "REPLACE" ∷ [])
  syntax (scan cursor pattern count) =
      codes "SCAN"
      ∷ to_string cursor
      ∷ codes "MATCH"
      ∷ pattern
      ∷ codes "COUNT"
      ∷ to_string count
      ∷ []
  syntax (touch names) = codes "TOUCH" ∷ words_of names
  syntax (ttl key) = codes "TTL" ∷ key ∷ []
  syntax (type key) = codes "TYPE" ∷ key ∷ []
  syntax (unlink names) = codes "UNLINK" ∷ words_of names
  syntax (wait num_slaves timeout) = codes "WAIT" ∷ to_string num_slaves ∷ to_string timeout ∷ []
