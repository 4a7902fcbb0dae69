-- ===== src/Commands/Values/Syntax.antt =====
-- bitmap_commands.h, hyperloglog_commands.h, geo_commands.h: the commands against the syntax that the
-- server documents.
use qbm_redis.Base.{Bool, List, [], ◌∷◌, Bytes, codes}
use qbm_redis.Base.Int.{ℤ}
use qbm_redis.Decimal.{to_string}
use qbm_redis.Floating.{Floating}
use qbm_redis.Types.{GeoUnit}
use qbm_redis.Interval.{geo_unit_text}
use qbm_redis.Commands.Arguments.{bit_of}
use qbm_redis.Wire.{Args}
use qbm_redis.Wire.Words.{words_of}

-- A call of a method, with its arguments.
pub data ValueCommand (D : Type 0) : Type 0 where
  bitcount : Bytes → ℤ → ℤ → ValueCommand D
  bitfield : Bytes → List Bytes → ValueCommand D
  bitop : Bytes → Bytes → List Bytes → ValueCommand D
  bitpos : Bytes → Bool → ℤ → ℤ → ValueCommand D
  getbit : Bytes → ℤ → ValueCommand D
  setbit : Bytes → ℤ → Bool → ValueCommand D
  pfadd : Bytes → Args D → ValueCommand D
  pfcount : Args D → ValueCommand D
  pfmerge : Bytes → Args D → ValueCommand D
  geoadd : Bytes → Args D → ValueCommand D
  geodist : Bytes → Bytes → Bytes → GeoUnit → ValueCommand D
  geohash : Bytes → Args D → ValueCommand D
  geopos : Bytes → Args D → ValueCommand D
  georadius : Bytes → D → D → D → GeoUnit → List Bytes → ValueCommand D
  georadiusbymember : Bytes → Bytes → D → GeoUnit → List Bytes → ValueCommand D
  geosearch : Bytes → Bytes → D → GeoUnit → List Bytes → ValueCommand D

module _ {D : Type 0} ⦃F : Floating D⦄ where
  -- The words of the documented syntax.
  unfoldable pub syntax : ValueCommand D → List Bytes
  unfolding words_of
  syntax (bitcount key start stop) = codes "BITCOUNT" ∷ key ∷ to_string start ∷ to_string stop ∷ []
  syntax (bitfield key operations) = codes "BITFIELD" ∷ key ∷ operations
  syntax (bitop operation destkey keys) = codes "BITOP" ∷ operation ∷ destkey ∷ keys
  syntax (bitpos key bit start stop) =
      codes "BITPOS" ∷ key ∷ to_string (bit_of bit) ∷ to_string start ∷ to_string stop ∷ []
  syntax (getbit key offset) = codes "GETBIT" ∷ key ∷ to_string offset ∷ []
  syntax (setbit key offset value) =
      codes "SETBIT" ∷ key ∷ to_string offset ∷ to_string (bit_of value) ∷ []
  syntax (pfadd key elements) = codes "PFADD" ∷ key ∷ words_of elements
  syntax (pfcount keys) = codes "PFCOUNT" ∷ words_of keys
  syntax (pfmerge destination keys) = codes "PFMERGE" ∷ destination ∷ words_of keys
  syntax (geoadd key members) = codes "GEOADD" ∷ key ∷ words_of members
  syntax (geodist key member1 member2 unit) =
      codes "GEODIST" ∷ key ∷ member1 ∷ member2 ∷ (geo_unit_text unit) ∷ []
  syntax (geohash key members) = codes "GEOHASH" ∷ key ∷ words_of members
  syntax (geopos key members) = codes "GEOPOS" ∷ key ∷ words_of members
  syntax (georadius key longitude latitude radius unit options) =
      codes "GEORADIUS"
      ∷ key
      ∷ F.show longitude
      ∷ F.show latitude
      ∷ F.show radius
      ∷ (geo_unit_text unit)
      ∷ options
  syntax (georadiusbymember key member radius unit options) =
      codes "GEORADIUSBYMEMBER" ∷ key ∷ member ∷ F.show radius ∷ (geo_unit_text unit) ∷ options
  syntax (geosearch key member radius unit options) =
      codes "GEOSEARCH"
      ∷ key
      ∷ codes "FROMMEMBER"
      ∷ member
      ∷ codes "BYRADIUS"
      ∷ F.show radius
      ∷ (geo_unit_text unit)
      ∷ options
