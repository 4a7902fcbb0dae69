-- ===== src/Commands/Streams/Replies.antt =====
-- stream_commands.h: what the `parse` of each method throws.
use qbm_redis.Floating.{Floating}
use qbm_redis.Outcome.{IsCaught}
use qbm_redis.Reply.{RedisReply}
use qbm_redis.Reply.Streams.{parse_stream_id}
use qbm_redis.Reply.Json.{JsonText}
use qbm_redis.Commands.{parse_request}
use qbm_redis.Reply.Scalars.Laws.{
  parse_string-IsCaught, parse_long_long-IsCaught, parse_status-IsCaught,
}
use qbm_redis.Outcome.Caught.{IsSafe-IsCaught}
use qbm_redis.Reply.Streams.Bounds.{IdFits, parse_stream_id-IsSafe}
use qbm_redis.Reply.Json.Laws.{parse_json-IsCaught}
use qbm_redis.Commands.Streams.Syntax.{
  StreamCommand, xadd, xadd_func, xlen, xdel, xtrim, xread, xread_of_keys, xinfo_stream, xinfo_help,
  xgroup_create, xgroup_destroy, xgroup_delconsumer, xack, xreadgroup, xreadgroup_of_keys,
  xinfo_groups, xinfo_consumers, xpending,
}
use qbm_redis.Commands.Streams.Requests.{requested}

module _ {D : Type 0} ⦃F : Floating D⦄ ⦃J : JsonText D⦄ where
  -- The `parse` of every method gives a value or a `ProtoError`.
  pub requested-IsCaught :
      (c : StreamCommand D) (r : RedisReply) → IsCaught (parse_request (requested c) r)
  unfolding requested
  requested-IsCaught (xadd key entries id) r = parse_string-IsCaught r
  requested-IsCaught (xadd_func key entries id) r =
      IsSafe-IsCaught IdFits (parse_stream_id r) (parse_stream_id-IsSafe r)
  requested-IsCaught (xlen key) r = parse_long_long-IsCaught r
  requested-IsCaught (xdel key ids) r = parse_long_long-IsCaught r
  requested-IsCaught (xtrim key maxlen approximate) r = parse_long_long-IsCaught r
  requested-IsCaught (xread key id count block) r = parse_json-IsCaught D r
  requested-IsCaught (xread_of_keys keys ids count block) r = parse_json-IsCaught D r
  requested-IsCaught (xinfo_stream key) r = parse_json-IsCaught D r
  requested-IsCaught xinfo_help r = parse_json-IsCaught D r
  requested-IsCaught (xgroup_create key group id mkstream) r = parse_status-IsCaught r
  requested-IsCaught (xgroup_destroy key group) r = parse_long_long-IsCaught r
  requested-IsCaught (xgroup_delconsumer key group consumer) r = parse_long_long-IsCaught r
  requested-IsCaught (xack key group ids) r = parse_long_long-IsCaught r
  requested-IsCaught (xreadgroup key group consumer id count block) r = parse_json-IsCaught D r
  requested-IsCaught (xreadgroup_of_keys keys group consumer ids count block) r =
      parse_json-IsCaught D r
  requested-IsCaught (xinfo_groups key) r = parse_json-IsCaught D r
  requested-IsCaught (xinfo_consumers key group) r = parse_json-IsCaught D r
  requested-IsCaught (xpending key group start last count consumer) r = parse_json-IsCaught D r
