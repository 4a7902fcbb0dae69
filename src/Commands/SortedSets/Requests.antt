-- ===== src/Commands/SortedSets/Requests.antt =====
-- sorted_set_commands.h: the requests of all methods.
use qbm_redis.Base.{◌≡◌, refl, false, not, append-nil, Bytes, codes, arith, is_empty}
use qbm_redis.Base.Int.{pos, ltb_ℤ}
use qbm_redis.Floating.{Floating}
use qbm_redis.Types.{UpdateType, always, exist, not_exist, LimitOptions}
use qbm_redis.Commands.{AnyRequest, any, packed_request}
use qbm_redis.Commands.Arguments.{flag}
use qbm_redis.Wire.{Args, redis_count}
use qbm_redis.Commands.SortedSets.{update_opt, from_offset}
use qbm_redis.Commands.Strings.Syntax.{condition}
use qbm_redis.Commands.SortedSets.Members
use qbm_redis.Commands.SortedSets.Ranges
use qbm_redis.Wire.Words.{words, words_of}
use qbm_redis.Wire.Counting.{AllUniform}
use qbm_redis.Commands.Arguments.Laws.{
  string_list-IsUniform, string_args-words, flag-words, option_words, optional_arg-IsUniform,
  optional_arg-words, member_list-IsUniform, member_args-words, floating_list-IsUniform,
  floating_args-words,
}
use qbm_redis.Commands.SortedSets.Syntax.{
  SortedSetCommand, bzpopmax, bzpopmin, zadd, zcard, zincrby, zpopmax, zpopmin, zrank, zrevrank,
  zrem, zscore, zscan, zunionstore, zinterstore, zcount, zlexcount, zrange, zrangebylex,
  zrangebylex_func, zrangebyscore, zrangebyscore_func, zremrangebylex, zremrangebyrank,
  zremrangebyscore, zrevrange, zrevrangebylex, zrevrangebyscore, syntax,
}

update_opt-condition : (type : UpdateType) → option_words (update_opt type) ≡ condition type
unfolding update_opt option_words condition
update_opt-condition always = refl
update_opt-condition exist = refl
update_opt-condition not_exist = refl

from_offset-text :
    (opts : LimitOptions) (w : Bytes) → ltb_ℤ opts.offset (pos 0) ≡ false → from_offset opts w ≡ w
unfolding from_offset
from_offset-text opts w u = rw u

module _ {D : Type 0} ⦃F : Floating D⦄ where
  -- The request of the method.
  unfoldable pub requested : SortedSetCommand D → AnyRequest D
  unfolding Members.bzpopmax_request Members.bzpopmin_request Members.zadd_request
      Members.zcard_request Members.zincrby_request Members.zpopmax_request Members.zpopmin_request
      Members.zrank_request Members.zrevrank_request Members.zrem_request Members.zscore_request
      Members.zscan_request Members.zunionstore_request Members.zinterstore_request
      Ranges.zcount_request Ranges.zlexcount_request Ranges.zrange_request
      Ranges.zrangebylex_request Ranges.zrangebylex_func_request Ranges.zrangebyscore_request
      Ranges.zrangebyscore_func_request Ranges.zremrangebylex_request Ranges.zremrangebyrank_request
      Ranges.zremrangebyscore_request Ranges.zrevrange_request Ranges.zrevrangebylex_request
      Ranges.zrevrangebyscore_request
  requested (bzpopmax keys timeout) = any (Members.bzpopmax_request keys timeout)
  requested (bzpopmin keys timeout) = any (Members.bzpopmin_request keys timeout)
  requested (zadd key members type changed) = any (Members.zadd_request key members type changed)
  requested (zcard key) = any (Members.zcard_request key)
  requested (zincrby key increment member) = any (Members.zincrby_request key increment member)
  requested (zpopmax key count) = any (Members.zpopmax_request key count)
  requested (zpopmin key count) = any (Members.zpopmin_request key count)
  requested (zrank key member) = any (Members.zrank_request key member)
  requested (zrevrank key member) = any (Members.zrevrank_request key member)
  requested (zrem key members) = any (Members.zrem_request key members)
  requested (zscore key member) = any (Members.zscore_request key member)
  requested (zscan key cursor pattern count) = any (Members.zscan_request key cursor pattern count)
  requested (zunionstore destination keys weights type) =
      any (Members.zunionstore_request destination keys weights type)
  requested (zinterstore destination keys weights type) =
      any (Members.zinterstore_request destination keys weights type)
  requested (zcount key interval) = any (Ranges.zcount_request key interval)
  requested (zlexcount key interval) = any (Ranges.zlexcount_request key interval)
  requested (zrange key start stop) = any (Ranges.zrange_request key start stop)
  requested (zrangebylex key interval opts) = any (Ranges.zrangebylex_request key interval opts)
  requested (zrangebylex_func key interval opts) =
      any (Ranges.zrangebylex_func_request key interval opts)
  requested (zrangebyscore key interval opts) = any (Ranges.zrangebyscore_request key interval opts)
  requested (zrangebyscore_func key interval opts) =
      any (Ranges.zrangebyscore_func_request key interval opts)
  requested (zremrangebylex key interval) = any (Ranges.zremrangebylex_request key interval)
  requested (zremrangebyrank key start stop) = any (Ranges.zremrangebyrank_request key start stop)
  requested (zremrangebyscore key interval) = any (Ranges.zremrangebyscore_request key interval)
  requested (zrevrange key start stop) = any (Ranges.zrevrange_request key start stop)
  requested (zrevrangebylex key interval opt) = any (Ranges.zrevrangebylex_request key interval opt)
  requested (zrevrangebyscore key interval opt) =
      any (Ranges.zrevrangebyscore_request key interval opt)

  -- The arguments of `put_in_pipe` that the method comes to.
  abbrev pub packed : SortedSetCommand D → Args D
  packed c = packed_request (requested c)

  -- What the method asks of its arguments.
  abbrev pub HasUniform : SortedSetCommand D → Type 0
  HasUniform (zrangebylex_func key interval opts) = ltb_ℤ opts.offset (pos 0) ≡ false
  HasUniform (zrangebyscore_func key interval opts) = ltb_ℤ opts.offset (pos 0) ≡ false
  HasUniform _ = Unit

  pub packed-AllUniform : (c : SortedSetCommand D) → HasUniform c → AllUniform (packed c)
  unfolding requested redis_count
  packed-AllUniform (bzpopmax keys timeout) u = (tt, (string_list-IsUniform D keys, (tt, tt)))
  packed-AllUniform (bzpopmin keys timeout) u = (tt, (string_list-IsUniform D keys, (tt, tt)))
  packed-AllUniform (zadd key members type changed) u = (
    tt,
    (
      tt,
      (
        optional_arg-IsUniform D (update_opt type),
        (
          optional_arg-IsUniform D (flag changed (codes "CH")),
          (member_list-IsUniform D members, tt),
        ),
      ),
    ),
  )
  packed-AllUniform (zrem key members) u = (tt, (tt, (string_list-IsUniform D members, tt)))
  packed-AllUniform (zunionstore destination keys weights type) u = (
    tt,
    (
      tt,
      (
        tt,
        (
          string_list-IsUniform D keys,
          (
            optional_arg-IsUniform D (flag (not (is_empty weights)) (codes "WEIGHTS")),
            (floating_list-IsUniform D weights, (tt, (tt, tt))),
          ),
        ),
      ),
    ),
  )
  packed-AllUniform (zinterstore destination keys weights type) u = (
    tt,
    (
      tt,
      (
        tt,
        (
          string_list-IsUniform D keys,
          (
            optional_arg-IsUniform D (flag (not (is_empty weights)) (codes "WEIGHTS")),
            (floating_list-IsUniform D weights, (tt, (tt, tt))),
          ),
        ),
      ),
    ),
  )
  packed-AllUniform (zrangebylex_func key interval opts) u =
      (tt, (tt, (tt, (tt, (tt, (tt, (tt, tt)))))))
  packed-AllUniform (zrangebyscore_func key interval opts) u =
      (tt, (tt, (tt, (tt, (tt, (tt, (tt, (tt, tt))))))))
  packed-AllUniform _ u = omega arith

  pub packed-syntax : (c : SortedSetCommand D) → HasUniform c → words_of (packed c) ≡ syntax c
  unfolding requested words syntax
  packed-syntax (bzpopmax keys timeout) u = simp (string_args-words D)
  packed-syntax (bzpopmin keys timeout) u = simp (string_args-words D)
  packed-syntax (zadd key members type changed) u =
      simp (optional_arg-words D, member_args-words D, flag-words, update_opt-condition, append-nil)
  packed-syntax (zrem key members) u = simp (string_args-words D, append-nil)
  packed-syntax (zunionstore destination keys weights type) u =
      simp (string_args-words D, optional_arg-words D, floating_args-words D, flag-words)
  packed-syntax (zinterstore destination keys weights type) u =
      simp (string_args-words D, optional_arg-words D, floating_args-words D, flag-words)
  packed-syntax (zrangebylex_func key interval opts) u =
      rw (from_offset-text opts _ u, from_offset-text opts _ u, from_offset-text opts _ u)
  packed-syntax (zrangebyscore_func key interval opts) u =
      rw (from_offset-text opts _ u, from_offset-text opts _ u, from_offset-text opts _ u)
  packed-syntax _ u = refl
