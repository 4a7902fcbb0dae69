-- ===== src/Commands/Lists/Replies.antt =====
-- list_commands.h: what the `parse` of each method throws.
use qbm_redis.Floating.{Floating}
use qbm_redis.Outcome.{IsCaught}
use qbm_redis.Reply.{RedisReply}
use qbm_redis.Reply.Scalars.{parse_string, parse_long_long}
use qbm_redis.Reply.Containers.{parse_pair}
use qbm_redis.Commands.{parse_request}
use qbm_redis.Reply.Scalars.Laws.{
  parse_string-IsCaught, parse_long_long-IsCaught, parse_status-IsCaught,
}
use qbm_redis.Reply.Containers.Laws.{
  parse_optional-Caught, parse_sequence-Caught, parse_pair-Caught,
}
use qbm_redis.Commands.Lists.Ends.{parse_key_value}
use qbm_redis.Commands.Lists.Syntax.{
  ListCommand, llen, lpop, rpop, lpush, lpushx, rpush, rpushx, lpop_count, rpop_count, lindex,
  blpop, brpop, linsert, lrange, ltrim, lrem, lset, rpoplpush, lmove, lpos, requested,
}

parse_key_value-IsCaught : (r : RedisReply) → IsCaught (parse_key_value r)
parse_key_value-IsCaught r =
    parse_optional-Caught (parse_pair parse_string parse_string)
      (parse_pair-Caught parse_string parse_string parse_string-IsCaught parse_string-IsCaught) r

module _ {D : Type 0} ⦃F : Floating D⦄ where
  -- The `parse` of every method gives a value or a `ProtoError`.
  pub requested-IsCaught :
      (c : ListCommand D) (r : RedisReply) → IsCaught (parse_request (requested c) r)
  unfolding requested
  requested-IsCaught (llen key) r = parse_long_long-IsCaught r
  requested-IsCaught (lpop key) r = parse_optional-Caught parse_string parse_string-IsCaught r
  requested-IsCaught (rpop key) r = parse_optional-Caught parse_string parse_string-IsCaught r
  requested-IsCaught (lpush key values) r = parse_long_long-IsCaught r
  requested-IsCaught (lpushx key values) r = parse_long_long-IsCaught r
  requested-IsCaught (rpush key values) r = parse_long_long-IsCaught r
  requested-IsCaught (rpushx key val) r = parse_long_long-IsCaught r
  requested-IsCaught (lpop_count key n) r =
      parse_sequence-Caught parse_string parse_string-IsCaught r
  requested-IsCaught (rpop_count key n) r =
      parse_sequence-Caught parse_string parse_string-IsCaught r
  requested-IsCaught (lindex key n) r = parse_optional-Caught parse_string parse_string-IsCaught r
  requested-IsCaught (blpop keys n) r = parse_key_value-IsCaught r
  requested-IsCaught (brpop keys n) r = parse_key_value-IsCaught r
  requested-IsCaught (linsert key at pivot val) r = parse_long_long-IsCaught r
  requested-IsCaught (lrange key a b) r = parse_sequence-Caught parse_string parse_string-IsCaught r
  requested-IsCaught (ltrim key a b) r = parse_status-IsCaught r
  requested-IsCaught (lrem key n val) r = parse_long_long-IsCaught r
  requested-IsCaught (lset key n val) r = parse_status-IsCaught r
  requested-IsCaught (rpoplpush source target) r =
      parse_optional-Caught parse_string parse_string-IsCaught r
  requested-IsCaught (lmove source target from into) r =
      parse_optional-Caught parse_string parse_string-IsCaught r
  requested-IsCaught (lpos key val rank n maxlen) r =
      parse_sequence-Caught parse_long_long parse_long_long-IsCaught r
