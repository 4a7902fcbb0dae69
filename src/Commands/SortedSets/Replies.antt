-- ===== src/Commands/SortedSets/Replies.antt =====
-- sorted_set_commands.h: what the `parse` of each method throws.
use qbm_redis.Base.{same_bytes}
use qbm_redis.Floating.{Floating}
use qbm_redis.Outcome.{IsCaught}
use qbm_redis.Reply.{RedisReply}
use qbm_redis.Reply.Scalars.{parse_string, parse_long_long, parse_double}
use qbm_redis.Reply.Containers.{parse_map}
use qbm_redis.Commands.{parse_request}
use qbm_redis.Commands.SortedSets.{parse_popped-IsCaught, parse_popped}
use qbm_redis.Reply.Scalars.Laws.{
  parse_string-IsCaught, parse_long_long-IsCaught, parse_double-IsCaught,
}
use qbm_redis.Reply.Containers.Laws.{parse_optional-Caught, parse_sequence-Caught, parse_map-Caught}
use qbm_redis.Reply.Containers.Laws.Scans.{parse_scan-Caught}
use qbm_redis.Reply.Records.Laws.{parse_score_members-IsCaught}
use qbm_redis.Commands.SortedSets.Syntax.{
  SortedSetCommand, bzpopmax, bzpopmin, zadd, zcard, zincrby, zpopmax, zpopmin, zrank, zrevrank,
  zrem, zscore, zscan, zunionstore, zinterstore, zcount, zlexcount, zrange, zrangebylex,
  zrangebylex_func, zrangebyscore, zrangebyscore_func, zremrangebylex, zremrangebyrank,
  zremrangebyscore, zrevrange, zrevrangebylex, zrevrangebyscore,
}
use qbm_redis.Commands.SortedSets.Requests.{requested}

module _ {D : Type 0} ⦃F : Floating D⦄ where
  -- The `parse` of every method gives a value or a `ProtoError`.
  pub requested-IsCaught :
      (c : SortedSetCommand D) (r : RedisReply) → IsCaught (parse_request (requested c) r)
  unfolding requested
  requested-IsCaught (bzpopmax keys timeout) r =
      parse_optional-Caught (parse_popped {D = D}) (parse_popped-IsCaught D) r
  requested-IsCaught (bzpopmin keys timeout) r =
      parse_optional-Caught (parse_popped {D = D}) (parse_popped-IsCaught D) r
  requested-IsCaught (zadd key members type changed) r = parse_long_long-IsCaught r
  requested-IsCaught (zcard key) r = parse_long_long-IsCaught r
  requested-IsCaught (zincrby key increment member) r = parse_double-IsCaught D r
  requested-IsCaught (zpopmax key count) r = parse_score_members-IsCaught D r
  requested-IsCaught (zpopmin key count) r = parse_score_members-IsCaught D r
  requested-IsCaught (zrank key member) r =
      parse_optional-Caught parse_long_long parse_long_long-IsCaught r
  requested-IsCaught (zrevrank key member) r =
      parse_optional-Caught parse_long_long parse_long_long-IsCaught r
  requested-IsCaught (zrem key members) r = parse_long_long-IsCaught r
  requested-IsCaught (zscore key member) r =
      parse_optional-Caught parse_double (parse_double-IsCaught D) r
  requested-IsCaught (zscan key cursor pattern count) r =
      parse_scan-Caught (parse_map same_bytes parse_string (parse_double {D = D}))
        (parse_map-Caught parse_string (parse_double {D = D}) parse_string-IsCaught
          (parse_double-IsCaught D) same_bytes)
        r
  requested-IsCaught (zunionstore destination keys weights type) r = parse_long_long-IsCaught r
  requested-IsCaught (zinterstore destination keys weights type) r = parse_long_long-IsCaught r
  requested-IsCaught (zcount key interval) r = parse_long_long-IsCaught r
  requested-IsCaught (zlexcount key interval) r = parse_long_long-IsCaught r
  requested-IsCaught (zrange key start stop) r = parse_score_members-IsCaught D r
  requested-IsCaught (zrangebylex key interval opts) r =
      parse_sequence-Caught parse_string parse_string-IsCaught r
  requested-IsCaught (zrangebylex_func key interval opts) r =
      parse_sequence-Caught parse_string parse_string-IsCaught r
  requested-IsCaught (zrangebyscore key interval opts) r = parse_score_members-IsCaught D r
  requested-IsCaught (zrangebyscore_func key interval opts) r = parse_score_members-IsCaught D r
  requested-IsCaught (zremrangebylex key interval) r = parse_long_long-IsCaught r
  requested-IsCaught (zremrangebyrank key start stop) r = parse_long_long-IsCaught r
  requested-IsCaught (zremrangebyscore key interval) r = parse_long_long-IsCaught r
  requested-IsCaught (zrevrange key start stop) r = parse_score_members-IsCaught D r
  requested-IsCaught (zrevrangebylex key interval opt) r =
      parse_sequence-Caught parse_string parse_string-IsCaught r
  requested-IsCaught (zrevrangebyscore key interval opt) r = parse_score_members-IsCaught D r
