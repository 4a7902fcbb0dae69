-- ===== src/Commands/Keys/Replies.antt =====
-- key_commands.h: what the `parse` of each method throws.
use qbm_redis.Floating.{Floating}
use qbm_redis.Outcome.{IsCaught}
use qbm_redis.Reply.{RedisReply}
use qbm_redis.Reply.Scalars.{parse_string}
use qbm_redis.Reply.Containers.{parse_sequence}
use qbm_redis.Commands.{parse_request}
use qbm_redis.Reply.Scalars.Laws.{
  parse_string-IsCaught, parse_long_long-IsCaught, parse_bool-IsCaught, parse_status-IsCaught,
}
use qbm_redis.Reply.Containers.Laws.{parse_optional-Caught, parse_sequence-Caught}
use qbm_redis.Reply.Containers.Laws.Scans.{parse_scan-Caught}
use qbm_redis.Commands.Keys.Syntax.{
  KeyCommand, del, dump, exists, expire, expireat, keys, move, persist, pexpire, pexpireat, pttl,
  randomkey, rename, renamenx, restore, scan, touch, ttl, type, unlink, wait,
}
use qbm_redis.Commands.Keys.Requests.{requested}

module _ {D : Type 0} ⦃F : Floating D⦄ where
  -- The `parse` of every method gives a value or a `ProtoError`.
  pub requested-IsCaught :
      (c : KeyCommand D) (r : RedisReply) → IsCaught (parse_request (requested c) r)
  unfolding requested
  requested-IsCaught (del names) r = parse_long_long-IsCaught r
  requested-IsCaught (dump key) r = parse_optional-Caught parse_string parse_string-IsCaught r
  requested-IsCaught (exists names) r = parse_long_long-IsCaught r
  requested-IsCaught (expire key timeout) r = parse_bool-IsCaught r
  requested-IsCaught (expireat key timestamp) r = parse_bool-IsCaught r
  requested-IsCaught (keys pattern) r = parse_sequence-Caught parse_string parse_string-IsCaught r
  requested-IsCaught (move key destination_db) r = parse_bool-IsCaught r
  requested-IsCaught (persist key) r = parse_bool-IsCaught r
  requested-IsCaught (pexpire key timeout) r = parse_bool-IsCaught r
  requested-IsCaught (pexpireat key timestamp) r = parse_bool-IsCaught r
  requested-IsCaught (pttl key) r = parse_long_long-IsCaught r
  requested-IsCaught randomkey r = parse_optional-Caught parse_string parse_string-IsCaught r
  requested-IsCaught (rename key new_key) r = parse_status-IsCaught r
  requested-IsCaught (renamenx key new_key) r = parse_bool-IsCaught r
  requested-IsCaught (restore key val time replace) r = parse_status-IsCaught r
  requested-IsCaught (scan cursor pattern count) r =
      parse_scan-Caught (parse_sequence parse_string)
        (parse_sequence-Caught parse_string parse_string-IsCaught) r
  requested-IsCaught (touch names) r = parse_long_long-IsCaught r
  requested-IsCaught (ttl key) r = parse_long_long-IsCaught r
  requested-IsCaught (type key) r = parse_string-IsCaught r
  requested-IsCaught (unlink names) r = parse_long_long-IsCaught r
  requested-IsCaught (wait num_slaves timeout) r = parse_long_long-IsCaught r
