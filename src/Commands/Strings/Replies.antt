-- ===== src/Commands/Strings/Replies.antt =====
-- string_commands.h: what the `parse` of each method throws.
use qbm_redis.Floating.{Floating}
use qbm_redis.Outcome.{IsCaught}
use qbm_redis.Reply.{RedisReply}
use qbm_redis.Reply.Scalars.{parse_string}
use qbm_redis.Commands.{parse_request}
use qbm_redis.Commands.Arguments.{parse_optional_string}
use qbm_redis.Reply.Scalars.Laws.{
  parse_string-IsCaught, parse_long_long-IsCaught, parse_bool-IsCaught, parse_double-IsCaught,
  parse_status-IsCaught,
}
use qbm_redis.Reply.Containers.Laws.{parse_optional-Caught, parse_sequence-Caught}
use qbm_redis.Commands.Strings.Syntax.{
  StringCommand, append, getset, setnx, decr, get, incr, strlen, getdel, decrby, incrby, getrange,
  incrbyfloat, mget, mset, msetnx, psetex, setex, setrange, set, set_ttl, getex, getex_milliseconds,
  lcs, requested,
}

module _ {D : Type 0} ⦃F : Floating D⦄ where
  -- The `parse` of every method gives a value or a `ProtoError`.
  pub requested-IsCaught :
      (c : StringCommand D) (r : RedisReply) → IsCaught (parse_request (requested c) r)
  unfolding requested
  requested-IsCaught (append key val) r = parse_long_long-IsCaught r
  requested-IsCaught (getset key val) r = parse_optional-Caught parse_string parse_string-IsCaught r
  requested-IsCaught (setnx key val) r = parse_bool-IsCaught r
  requested-IsCaught (decr key) r = parse_long_long-IsCaught r
  requested-IsCaught (get key) r = parse_optional-Caught parse_string parse_string-IsCaught r
  requested-IsCaught (incr key) r = parse_long_long-IsCaught r
  requested-IsCaught (strlen key) r = parse_long_long-IsCaught r
  requested-IsCaught (getdel key) r = parse_optional-Caught parse_string parse_string-IsCaught r
  requested-IsCaught (decrby key n) r = parse_long_long-IsCaught r
  requested-IsCaught (incrby key n) r = parse_long_long-IsCaught r
  requested-IsCaught (getrange key a b) r = parse_string-IsCaught r
  requested-IsCaught (incrbyfloat key x) r = parse_double-IsCaught D r
  requested-IsCaught (mget key keys) r =
      parse_sequence-Caught parse_optional_string
        (parse_optional-Caught parse_string parse_string-IsCaught) r
  requested-IsCaught (mset e es) r = parse_status-IsCaught r
  requested-IsCaught (msetnx e es) r = parse_long_long-IsCaught r
  requested-IsCaught (psetex key n val) r = parse_status-IsCaught r
  requested-IsCaught (setex key n val) r = parse_status-IsCaught r
  requested-IsCaught (setrange key n val) r = parse_long_long-IsCaught r
  requested-IsCaught (set key val t) r = parse_status-IsCaught r
  requested-IsCaught (set_ttl key val n t) r = parse_status-IsCaught r
  requested-IsCaught (getex key n) r = parse_optional-Caught parse_string parse_string-IsCaught r
  requested-IsCaught (getex_milliseconds key n) r =
      parse_optional-Caught parse_string parse_string-IsCaught r
  requested-IsCaught (lcs a b) r = parse_string-IsCaught r
