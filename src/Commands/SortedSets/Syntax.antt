-- ===== src/Commands/SortedSets/Syntax.antt =====
-- sorted_set_commands.h: the sorted set commands against the syntax that the server documents.
use qbm_redis.Base.{Bool, not, List, [], ◌∷◌, ◌++◌, Bytes, codes, length, is_empty}
use qbm_redis.Base.Int.{ℤ, pos}
use qbm_redis.Decimal.{to_string}
use qbm_redis.Floating.{Floating}
use qbm_redis.Types.{ScoreMember, UpdateType, Aggregation, LimitOptions}
use qbm_redis.Interval.{Interval, aggregation_text}
use qbm_redis.Commands.Strings.Syntax.{condition}
use qbm_redis.Commands.Arguments.Laws.{when, member_words, floating_words}

-- A call of a method, with its arguments.
pub data SortedSetCommand (D : Type 0) : Type 0 where
  bzpopmax : List Bytes → ℤ → SortedSetCommand D
  bzpopmin : List Bytes → ℤ → SortedSetCommand D
  zadd : Bytes → List (ScoreMember D) → UpdateType → Bool → SortedSetCommand D
  zcard : Bytes → SortedSetCommand D
  zincrby : Bytes → D → Bytes → SortedSetCommand D
  zpopmax : Bytes → ℤ → SortedSetCommand D
  zpopmin : Bytes → ℤ → SortedSetCommand D
  zrank : Bytes → Bytes → SortedSetCommand D
  zrevrank : Bytes → Bytes → SortedSetCommand D
  zrem : Bytes → List Bytes → SortedSetCommand D
  zscore : Bytes → Bytes → SortedSetCommand D
  zscan : Bytes → ℤ → Bytes → ℤ → SortedSetCommand D
  zunionstore : Bytes → List Bytes → List D → Aggregation → SortedSetCommand D
  zinterstore : Bytes → List Bytes → List D → Aggregation → SortedSetCommand D
  zcount : Bytes → Interval → SortedSetCommand D
  zlexcount : Bytes → Interval → SortedSetCommand D
  zrange : Bytes → ℤ → ℤ → SortedSetCommand D
  zrangebylex : Bytes → Interval → LimitOptions → SortedSetCommand D
  zrangebylex_func : Bytes → Interval → LimitOptions → SortedSetCommand D
  zrangebyscore : Bytes → Interval → LimitOptions → SortedSetCommand D
  zrangebyscore_func : Bytes → Interval → LimitOptions → SortedSetCommand D
  zremrangebylex : Bytes → Interval → SortedSetCommand D
  zremrangebyrank : Bytes → ℤ → ℤ → SortedSetCommand D
  zremrangebyscore : Bytes → Interval → SortedSetCommand D
  zrevrange : Bytes → ℤ → ℤ → SortedSetCommand D
  zrevrangebylex : Bytes → Interval → LimitOptions → SortedSetCommand D
  zrevrangebyscore : Bytes → Interval → LimitOptions → SortedSetCommand D

module _ {D : Type 0} ⦃F : Floating D⦄ where
  -- The words of the documented syntax.
  unfoldable pub syntax : SortedSetCommand D → List Bytes
  unfolding when member_words floating_words condition
  syntax (bzpopmax keys timeout) = codes "BZPOPMAX" ∷ (keys ++ to_string timeout ∷ [])
  syntax (bzpopmin keys timeout) = codes "BZPOPMIN" ∷ (keys ++ to_string timeout ∷ [])
  syntax (zadd key members type changed) =
      codes "ZADD"
      ∷ key
      ∷ ((condition type) ++ ((when changed (codes "CH")) ++ member_words members))
  syntax (zcard key) = codes "ZCARD" ∷ key ∷ []
  syntax (zincrby key increment member) = codes "ZINCRBY" ∷ key ∷ F.show increment ∷ member ∷ []
  syntax (zpopmax key count) = codes "ZPOPMAX" ∷ key ∷ to_string count ∷ []
  syntax (zpopmin key count) = codes "ZPOPMIN" ∷ key ∷ to_string count ∷ []
  syntax (zrank key member) = codes "ZRANK" ∷ key ∷ member ∷ []
  syntax (zrevrank key member) = codes "ZREVRANK" ∷ key ∷ member ∷ []
  syntax (zrem key members) = codes "ZREM" ∷ key ∷ members
  syntax (zscore key member) = codes "ZSCORE" ∷ key ∷ member ∷ []
  syntax (zscan key cursor pattern count) =
      codes "ZSCAN"
      ∷ key
      ∷ to_string cursor
      ∷ codes "MATCH"
      ∷ pattern
      ∷ codes "COUNT"
      ∷ to_string count
      ∷ []
  syntax (zunionstore destination keys weights type) =
      codes "ZUNIONSTORE"
      ∷ destination
      ∷ to_string (pos (length keys))
      ∷ (keys
          ++ ((when (not (is_empty weights)) (codes "WEIGHTS"))
              ++ ((floating_words weights) ++ codes "AGGREGATE" ∷ (aggregation_text type) ∷ [])))
  syntax (zinterstore destination keys weights type) =
      codes "ZINTERSTORE"
      ∷ destination
      ∷ to_string (pos (length keys))
      ∷ (keys
          ++ ((when (not (is_empty weights)) (codes "WEIGHTS"))
              ++ ((floating_words weights) ++ codes "AGGREGATE" ∷ (aggregation_text type) ∷ [])))
  syntax (zcount key interval) = codes "ZCOUNT" ∷ key ∷ interval.lower ∷ interval.upper ∷ []
  syntax (zlexcount key interval) = codes "ZLEXCOUNT" ∷ key ∷ interval.lower ∷ interval.upper ∷ []
  syntax (zrange key start stop) =
      codes "ZRANGE" ∷ key ∷ to_string start ∷ to_string stop ∷ codes "WITHSCORES" ∷ []
  syntax (zrangebylex key interval opts) =
      codes "ZRANGEBYLEX"
      ∷ key
      ∷ interval.lower
      ∷ interval.upper
      ∷ codes "LIMIT"
      ∷ to_string opts.offset
      ∷ to_string opts.count
      ∷ []
  syntax (zrangebylex_func key interval opts) =
      codes "ZRANGEBYLEX"
      ∷ key
      ∷ interval.lower
      ∷ interval.upper
      ∷ codes "LIMIT"
      ∷ to_string opts.offset
      ∷ to_string opts.count
      ∷ []
  syntax (zrangebyscore key interval opts) =
      codes "ZRANGEBYSCORE"
      ∷ key
      ∷ interval.lower
      ∷ interval.upper
      ∷ codes "WITHSCORES"
      ∷ codes "LIMIT"
      ∷ to_string opts.offset
      ∷ to_string opts.count
      ∷ []
  syntax (zrangebyscore_func key interval opts) =
      codes "ZRANGEBYSCORE"
      ∷ key
      ∷ interval.lower
      ∷ interval.upper
      ∷ codes "LIMIT"
      ∷ to_string opts.offset
      ∷ to_string opts.count
      ∷ codes "WITHSCORES"
      ∷ []
  syntax (zremrangebylex key interval) =
      codes "ZREMRANGEBYLEX" ∷ key ∷ interval.lower ∷ interval.upper ∷ []
  syntax (zremrangebyrank key start stop) =
      codes "ZREMRANGEBYRANK" ∷ key ∷ to_string start ∷ to_string stop ∷ []
  syntax (zremrangebyscore key interval) =
      codes "ZREMRANGEBYSCORE" ∷ key ∷ interval.lower ∷ interval.upper ∷ []
  syntax (zrevrange key start stop) =
      codes "ZREVRANGE" ∷ key ∷ to_string start ∷ to_string stop ∷ codes "WITHSCORES" ∷ []
  syntax (zrevrangebylex key interval opt) =
      codes "ZREVRANGEBYLEX"
      ∷ key
      ∷ interval.upper
      ∷ interval.lower
      ∷ codes "LIMIT"
      ∷ to_string opt.offset
      ∷ to_string opt.count
      ∷ []
  syntax (zrevrangebyscore key interval opt) =
      codes "ZREVRANGEBYSCORE"
      ∷ key
      ∷ interval.upper
      ∷ interval.lower
      ∷ codes "WITHSCORES"
      ∷ codes "LIMIT"
      ∷ to_string opt.offset
      ∷ to_string opt.count
      ∷ []
