-- ===== src/Commands/Values/Requests.antt =====
-- bitmap_commands.h, hyperloglog_commands.h, geo_commands.h: the requests of all methods.
use qbm_redis.Base.{◌≡◌, refl, append-nil, arith}
use qbm_redis.Floating.{Floating}
use qbm_redis.Commands.{AnyRequest, any, packed_request}
use qbm_redis.Wire.{Args, redis_count}
use qbm_redis.Commands.Values.Bitmaps
use qbm_redis.Commands.Values.HyperLogLog
use qbm_redis.Commands.Values.Geo
use qbm_redis.Wire.Words.{words, words_of}
use qbm_redis.Wire.Counting.{AllUniform}
use qbm_redis.Commands.Arguments.Laws.{string_list-IsUniform, string_args-words}
use qbm_redis.Commands.Values.Syntax.{
  ValueCommand, bitcount, bitfield, bitop, bitpos, getbit, setbit, pfadd, pfcount, pfmerge, geoadd,
  geodist, geohash, geopos, georadius, georadiusbymember, geosearch, syntax,
}

module _ {D : Type 0} ⦃F : Floating D⦄ where
  -- The request of the method.
  unfoldable pub requested : ValueCommand D → AnyRequest D
  unfolding Bitmaps.bitcount_request Bitmaps.bitfield_request Bitmaps.bitop_request
      Bitmaps.bitpos_request Bitmaps.getbit_request Bitmaps.setbit_request HyperLogLog.pfadd_request
      HyperLogLog.pfcount_request HyperLogLog.pfmerge_request Geo.geoadd_request Geo.geodist_request
      Geo.geohash_request Geo.geopos_request Geo.georadius_request Geo.georadiusbymember_request
      Geo.geosearch_request
  requested (bitcount key start stop) = any (Bitmaps.bitcount_request key start stop)
  requested (bitfield key operations) = any (Bitmaps.bitfield_request key operations)
  requested (bitop operation destkey keys) = any (Bitmaps.bitop_request operation destkey keys)
  requested (bitpos key bit start stop) = any (Bitmaps.bitpos_request key bit start stop)
  requested (getbit key offset) = any (Bitmaps.getbit_request key offset)
  requested (setbit key offset value) = any (Bitmaps.setbit_request key offset value)
  requested (pfadd key elements) = any (HyperLogLog.pfadd_request key elements)
  requested (pfcount keys) = any (HyperLogLog.pfcount_request keys)
  requested (pfmerge destination keys) = any (HyperLogLog.pfmerge_request destination keys)
  requested (geoadd key members) = any (Geo.geoadd_request key members)
  requested (geodist key member1 member2 unit) = any (Geo.geodist_request key member1 member2 unit)
  requested (geohash key members) = any (Geo.geohash_request key members)
  requested (geopos key members) = any (Geo.geopos_request key members)
  requested (georadius key longitude latitude radius unit options) =
      any (Geo.georadius_request key longitude latitude radius unit options)
  requested (georadiusbymember key member radius unit options) =
      any (Geo.georadiusbymember_request key member radius unit options)
  requested (geosearch key member radius unit options) =
      any (Geo.geosearch_request key member radius unit options)

  -- The arguments of `put_in_pipe` that the method comes to.
  abbrev pub packed : ValueCommand D → Args D
  packed c = packed_request (requested c)

  -- What the method asks of its arguments.
  abbrev pub HasUniform : ValueCommand D → Type 0
  HasUniform (pfadd key elements) = AllUniform elements
  HasUniform (pfcount keys) = AllUniform keys
  HasUniform (pfmerge destination keys) = AllUniform keys
  HasUniform (geoadd key members) = AllUniform members
  HasUniform (geohash key members) = AllUniform members
  HasUniform (geopos key members) = AllUniform members
  HasUniform _ = Unit

  pub packed-AllUniform : (c : ValueCommand D) → HasUniform c → AllUniform (packed c)
  unfolding requested redis_count
  packed-AllUniform (bitfield key operations) u =
      (tt, (tt, (string_list-IsUniform D operations, tt)))
  packed-AllUniform (bitop operation destkey keys) u =
      (tt, (tt, (tt, (string_list-IsUniform D keys, tt))))
  packed-AllUniform (pfadd key elements) u = (tt, (tt, u))
  packed-AllUniform (pfcount keys) u = (tt, u)
  packed-AllUniform (pfmerge destination keys) u = (tt, (tt, u))
  packed-AllUniform (geoadd key members) u = (tt, (tt, u))
  packed-AllUniform (geohash key members) u = (tt, (tt, u))
  packed-AllUniform (geopos key members) u = (tt, (tt, u))
  packed-AllUniform (georadius key longitude latitude radius unit options) u =
      (tt, (tt, (tt, (tt, (tt, (tt, (string_list-IsUniform D options, tt)))))))
  packed-AllUniform (georadiusbymember key member radius unit options) u =
      (tt, (tt, (tt, (tt, (tt, (string_list-IsUniform D options, tt))))))
  packed-AllUniform (geosearch key member radius unit options) u =
      (tt, (tt, (tt, (tt, (tt, (tt, (tt, (string_list-IsUniform D options, tt))))))))
  packed-AllUniform _ u = omega arith

  pub packed-syntax : (c : ValueCommand D) → HasUniform c → words_of (packed c) ≡ syntax c
  unfolding requested words syntax
  packed-syntax (bitfield key operations) u = simp (string_args-words D, append-nil)
  packed-syntax (bitop operation destkey keys) u = simp (string_args-words D, append-nil)
  packed-syntax (georadius key longitude latitude radius unit options) u =
      simp (string_args-words D, append-nil)
  packed-syntax (georadiusbymember key member radius unit options) u =
      simp (string_args-words D, append-nil)
  packed-syntax (geosearch key member radius unit options) u =
      simp (string_args-words D, append-nil)
  packed-syntax _ u = refl
