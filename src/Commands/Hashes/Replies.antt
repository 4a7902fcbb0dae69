-- ===== src/Commands/Hashes/Replies.antt =====
-- hash_commands.h: what the `parse` of each method throws.
use qbm_redis.Base.{same_bytes}
use qbm_redis.Floating.{Floating}
use qbm_redis.Outcome.{IsCaught}
use qbm_redis.Reply.{RedisReply}
use qbm_redis.Reply.Scalars.{parse_string, parse_long_long}
use qbm_redis.Commands.{parse_request}
use qbm_redis.Commands.Arguments.{parse_optional_string}
use qbm_redis.Reply.Scalars.Laws.{
  parse_string-IsCaught, parse_long_long-IsCaught, parse_bool-IsCaught, parse_double-IsCaught,
  parse_status-IsCaught,
}
use qbm_redis.Reply.Containers.Laws.{parse_optional-Caught, parse_sequence-Caught, parse_map-Caught}
use qbm_redis.Reply.Containers.Laws.Scans.{parse_scan-Caught}
use qbm_redis.Commands.Hashes.{parse_string_map}
use qbm_redis.Commands.Hashes as H
use qbm_redis.Outcome.Caught.{>>=-IsCaught}
use qbm_redis.Commands.Hashes.Syntax.{
  HashCommand, hdel, hmget, hmset, hexists, hget, hstrlen, hgetall, hkeys, hlen, hvals, hincrby,
  hincrbyfloat, hscan, hset, hsetnx, hset_item, hsetnx_item, requested,
}

parse_string_map-IsCaught : (r : RedisReply) → IsCaught (parse_string_map r)
parse_string_map-IsCaught r =
    parse_map-Caught parse_string parse_string parse_string-IsCaught parse_string-IsCaught
      same_bytes r

module _ {D : Type 0} ⦃F : Floating D⦄ where
  -- The `parse` of every method gives a value or a `ProtoError`.
  pub requested-IsCaught :
      (c : HashCommand D) (r : RedisReply) → IsCaught (parse_request (requested c) r)
  unfolding requested H.hset H.hset_item H.hsetnx_item H.hsetnx
  requested-IsCaught (hdel key fields) r = parse_long_long-IsCaught r
  requested-IsCaught (hmget key fields) r =
      parse_sequence-Caught parse_optional_string
        (parse_optional-Caught parse_string parse_string-IsCaught) r
  requested-IsCaught (hmset key fields) r = parse_status-IsCaught r
  requested-IsCaught (hexists key f) r = parse_bool-IsCaught r
  requested-IsCaught (hget key f) r = parse_optional-Caught parse_string parse_string-IsCaught r
  requested-IsCaught (hstrlen key f) r = parse_long_long-IsCaught r
  requested-IsCaught (hgetall key) r = parse_string_map-IsCaught r
  requested-IsCaught (hkeys key) r = parse_sequence-Caught parse_string parse_string-IsCaught r
  requested-IsCaught (hlen key) r = parse_long_long-IsCaught r
  requested-IsCaught (hvals key) r = parse_sequence-Caught parse_string parse_string-IsCaught r
  requested-IsCaught (hincrby key f n) r = parse_long_long-IsCaught r
  requested-IsCaught (hincrbyfloat key f x) r = parse_double-IsCaught D r
  requested-IsCaught (hscan key cursor pattern n) r =
      parse_scan-Caught parse_string_map parse_string_map-IsCaught r
  requested-IsCaught (hset key f val) r = parse_long_long-IsCaught r
  requested-IsCaught (hsetnx key f val) r = parse_bool-IsCaught r
  requested-IsCaught (hset_item key item) r =
      >>=-IsCaught (parse_long_long r) _ (parse_long_long-IsCaught r) (λ n. tt)
  requested-IsCaught (hsetnx_item key item) r = parse_bool-IsCaught r
