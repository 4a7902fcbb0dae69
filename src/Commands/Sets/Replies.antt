-- ===== src/Commands/Sets/Replies.antt =====
-- set_commands.h: what the `parse` of each method throws.
use qbm_redis.Floating.{Floating}
use qbm_redis.Outcome.{IsCaught}
use qbm_redis.Reply.{RedisReply}
use qbm_redis.Reply.Scalars.{parse_string, parse_bool}
use qbm_redis.Reply.Containers.{parse_sequence}
use qbm_redis.Commands.{parse_request}
use qbm_redis.Reply.Scalars.Laws.{
  parse_string-IsCaught, parse_long_long-IsCaught, parse_bool-IsCaught,
}
use qbm_redis.Reply.Containers.Laws.{parse_optional-Caught, parse_sequence-Caught}
use qbm_redis.Reply.Containers.Laws.Scans.{parse_scan-Caught}
use qbm_redis.Commands.Sets.Members.{parse_string_set}
use qbm_redis.Outcome.Caught.{>>=-IsCaught}
use qbm_redis.Commands.Sets.Syntax.{
  SetCommand, sadd, srem, smismember, scard, sismember, smembers, smove, spop, srandmember,
  spop_count, srandmember_count, sscan, sdiff, sinter, sunion, sdiffstore, sinterstore, sunionstore,
  sintercard, requested,
}

parse_string_set-IsCaught : (r : RedisReply) → IsCaught (parse_string_set r)
unfolding parse_string_set
parse_string_set-IsCaught r =
    >>=-IsCaught (parse_sequence parse_string r) _
      (parse_sequence-Caught parse_string parse_string-IsCaught r) (λ ss. tt)

module _ {D : Type 0} ⦃F : Floating D⦄ where
  -- The `parse` of every method gives a value or a `ProtoError`.
  pub requested-IsCaught :
      (c : SetCommand D) (r : RedisReply) → IsCaught (parse_request (requested c) r)
  unfolding requested
  requested-IsCaught (sadd key members) r = parse_long_long-IsCaught r
  requested-IsCaught (srem key members) r = parse_long_long-IsCaught r
  requested-IsCaught (smismember key members) r =
      parse_sequence-Caught parse_bool parse_bool-IsCaught r
  requested-IsCaught (scard key) r = parse_long_long-IsCaught r
  requested-IsCaught (sismember key member) r = parse_bool-IsCaught r
  requested-IsCaught (smembers key) r = parse_string_set-IsCaught r
  requested-IsCaught (smove source target member) r = parse_bool-IsCaught r
  requested-IsCaught (spop key) r = parse_optional-Caught parse_string parse_string-IsCaught r
  requested-IsCaught (srandmember key) r =
      parse_optional-Caught parse_string parse_string-IsCaught r
  requested-IsCaught (spop_count key n) r =
      parse_sequence-Caught parse_string parse_string-IsCaught r
  requested-IsCaught (srandmember_count key n) r =
      parse_sequence-Caught parse_string parse_string-IsCaught r
  requested-IsCaught (sscan key cursor pattern n) r =
      parse_scan-Caught (parse_sequence parse_string)
        (parse_sequence-Caught parse_string parse_string-IsCaught) r
  requested-IsCaught (sdiff keys) r = parse_sequence-Caught parse_string parse_string-IsCaught r
  requested-IsCaught (sinter keys) r = parse_sequence-Caught parse_string parse_string-IsCaught r
  requested-IsCaught (sunion keys) r = parse_sequence-Caught parse_string parse_string-IsCaught r
  requested-IsCaught (sdiffstore target keys) r = parse_long_long-IsCaught r
  requested-IsCaught (sinterstore target keys) r = parse_long_long-IsCaught r
  requested-IsCaught (sunionstore target keys) r = parse_long_long-IsCaught r
  requested-IsCaught (sintercard keys limit) r = parse_long_long-IsCaught r
