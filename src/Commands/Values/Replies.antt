-- ===== src/Commands/Values/Replies.antt =====
-- bitmap_commands.h, hyperloglog_commands.h, geo_commands.h: what the `parse` of each method throws.
use qbm_redis.Floating.{Floating}
use qbm_redis.Outcome.{IsCaught}
use qbm_redis.Reply.{RedisReply}
use qbm_redis.Reply.Scalars.{parse_string, parse_long_long, parse_double}
use qbm_redis.Reply.Records.{parse_geo_pos}
use qbm_redis.Reply.Containers.{parse_optional}
use qbm_redis.Commands.{parse_request}
use qbm_redis.Commands.Arguments.{parse_optional_string}
use qbm_redis.Reply.Scalars.Laws.{
  parse_string-IsCaught, parse_long_long-IsCaught, parse_bool-IsCaught, parse_double-IsCaught,
  parse_status-IsCaught,
}
use qbm_redis.Reply.Containers.Laws.{parse_optional-Caught, parse_sequence-Caught}
use qbm_redis.Reply.Records.Laws.{parse_geo_pos-IsCaught}
use qbm_redis.Commands.Values.Syntax.{
  ValueCommand, bitcount, bitfield, bitop, bitpos, getbit, setbit, pfadd, pfcount, pfmerge, geoadd,
  geodist, geohash, geopos, georadius, georadiusbymember, geosearch,
}
use qbm_redis.Commands.Values.Requests.{requested}

module _ {D : Type 0} ⦃F : Floating D⦄ where
  -- The `parse` of every method gives a value or a `ProtoError`.
  pub requested-IsCaught :
      (c : ValueCommand D) (r : RedisReply) → IsCaught (parse_request (requested c) r)
  unfolding requested
  requested-IsCaught (bitcount key start stop) r = parse_long_long-IsCaught r
  requested-IsCaught (bitfield key operations) r =
      parse_sequence-Caught (parse_optional parse_long_long)
        (parse_optional-Caught parse_long_long parse_long_long-IsCaught) r
  requested-IsCaught (bitop operation destkey keys) r = parse_long_long-IsCaught r
  requested-IsCaught (bitpos key bit start stop) r = parse_long_long-IsCaught r
  requested-IsCaught (getbit key offset) r = parse_long_long-IsCaught r
  requested-IsCaught (setbit key offset value) r = parse_long_long-IsCaught r
  requested-IsCaught (pfadd key elements) r = parse_bool-IsCaught r
  requested-IsCaught (pfcount keys) r = parse_long_long-IsCaught r
  requested-IsCaught (pfmerge destination keys) r = parse_status-IsCaught r
  requested-IsCaught (geoadd key members) r = parse_long_long-IsCaught r
  requested-IsCaught (geodist key member1 member2 unit) r =
      parse_optional-Caught parse_double (parse_double-IsCaught D) r
  requested-IsCaught (geohash key members) r =
      parse_sequence-Caught parse_optional_string
        (parse_optional-Caught parse_string parse_string-IsCaught) r
  requested-IsCaught (geopos key members) r =
      parse_sequence-Caught (parse_optional (parse_geo_pos {D = D}))
        (parse_optional-Caught (parse_geo_pos {D = D}) (parse_geo_pos-IsCaught D)) r
  requested-IsCaught (georadius key longitude latitude radius unit options) r =
      parse_sequence-Caught parse_string parse_string-IsCaught r
  requested-IsCaught (georadiusbymember key member radius unit options) r =
      parse_sequence-Caught parse_string parse_string-IsCaught r
  requested-IsCaught (geosearch key member radius unit options) r =
      parse_sequence-Caught parse_string parse_string-IsCaught r
