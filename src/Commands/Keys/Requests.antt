-- ===== src/Commands/Keys/Requests.antt =====
-- key_commands.h: the requests of all methods.
use qbm_redis.Base.{◌≡◌, refl, [], ◌∷◌, append-nil, codes, arith}
use qbm_redis.Floating.{Floating}
use qbm_redis.Commands.{AnyRequest, any, packed_request}
use qbm_redis.Commands.Arguments.{push_if}
use qbm_redis.Wire.{Args, redis_count}
use qbm_redis.Commands.Keys
use qbm_redis.Wire.Words.{words, words_of}
use qbm_redis.Wire.Counting.{AllUniform}
use qbm_redis.Commands.Arguments.Laws.{push_if-clause, string_list-IsUniform, string_args-words}
use qbm_redis.Commands.Keys.Syntax.{
  KeyCommand, del, dump, exists, expire, expireat, keys, move, persist, pexpire, pexpireat, pttl,
  randomkey, rename, renamenx, restore, scan, touch, ttl, type, unlink, wait, syntax,
}

module _ {D : Type 0} ⦃F : Floating D⦄ where
  -- The request of the method.
  unfoldable pub requested : KeyCommand D → AnyRequest D
  unfolding Keys.del_request Keys.dump_request Keys.exists_request Keys.expire_request
      Keys.expireat_request Keys.keys_request Keys.move_request Keys.persist_request
      Keys.pexpire_request Keys.pexpireat_request Keys.pttl_request Keys.randomkey_request
      Keys.rename_request Keys.renamenx_request Keys.restore_request Keys.scan_request
      Keys.touch_request Keys.ttl_request Keys.type_request Keys.unlink_request Keys.wait_request
  requested (del names) = any (Keys.del_request names)
  requested (dump key) = any (Keys.dump_request key)
  requested (exists names) = any (Keys.exists_request names)
  requested (expire key timeout) = any (Keys.expire_request key timeout)
  requested (expireat key timestamp) = any (Keys.expireat_request key timestamp)
  requested (keys pattern) = any (Keys.keys_request pattern)
  requested (move key destination_db) = any (Keys.move_request key destination_db)
  requested (persist key) = any (Keys.persist_request key)
  requested (pexpire key timeout) = any (Keys.pexpire_request key timeout)
  requested (pexpireat key timestamp) = any (Keys.pexpireat_request key timestamp)
  requested (pttl key) = any (Keys.pttl_request key)
  requested randomkey = any (Keys.randomkey_request)
  requested (rename key new_key) = any (Keys.rename_request key new_key)
  requested (renamenx key new_key) = any (Keys.renamenx_request key new_key)
  requested (restore key val time replace) = any (Keys.restore_request key val time replace)
  requested (scan cursor pattern count) = any (Keys.scan_request cursor pattern count)
  requested (touch names) = any (Keys.touch_request names)
  requested (ttl key) = any (Keys.ttl_request key)
  requested (type key) = any (Keys.type_request key)
  requested (unlink names) = any (Keys.unlink_request names)
  requested (wait num_slaves timeout) = any (Keys.wait_request num_slaves timeout)

  -- The arguments of `put_in_pipe` that the method comes to.
  abbrev pub packed : KeyCommand D → Args D
  packed c = packed_request (requested c)

  -- What the method asks of its arguments.
  abbrev pub HasUniform : KeyCommand D → Type 0
  HasUniform (del names) = AllUniform names
  HasUniform (exists names) = AllUniform names
  HasUniform (touch names) = AllUniform names
  HasUniform (unlink names) = AllUniform names
  HasUniform _ = Unit

  pub packed-AllUniform : (c : KeyCommand D) → HasUniform c → AllUniform (packed c)
  unfolding requested redis_count
  packed-AllUniform (del names) u = (tt, u)
  packed-AllUniform (exists names) u = (tt, u)
  packed-AllUniform (restore key val time replace) u = (
    tt,
    (tt, (tt, (tt, (string_list-IsUniform D (push_if replace (codes "REPLACE" ∷ []) []), tt)))),
  )
  packed-AllUniform (touch names) u = (tt, u)
  packed-AllUniform (unlink names) u = (tt, u)
  packed-AllUniform _ u = omega arith

  pub packed-syntax : (c : KeyCommand D) → HasUniform c → words_of (packed c) ≡ syntax c
  unfolding requested words syntax
  packed-syntax (restore key val time replace) u =
      simp (string_args-words D, append-nil, push_if-clause)
  packed-syntax _ u = refl
