-- ===== src/Commands/Values/Geo.antt =====
-- geo_commands.h: the geo commands.
use qbm_redis.Base.{List, Option, Bytes, codes}
use qbm_redis.Base.Int.{ℤ}
use qbm_redis.Floating.{Floating}
use qbm_redis.Types.{GeoPos, GeoUnit}
use qbm_redis.Interval.{geo_unit_text}
use qbm_redis.Reply.Scalars.{parse_string, parse_long_long, parse_double}
use qbm_redis.Reply.Records.{parse_geo_pos}
use qbm_redis.Reply.Containers.{parse_optional, parse_sequence}
use qbm_redis.Commands.{Request, args_4, args_5}
use qbm_redis.Commands.Arguments.{string_args, parse_optional_string}
use qbm_redis.Wire.{literal, str, floating, container, Args, end, arg}

module _ {D : Type 0} where
  unfoldable pub geoadd_request : Bytes → Args D → Request D ℤ
  geoadd_request key members = record {
    name = codes "GEOADD";
    args = arg (str key) members;
    parse = parse_long_long;
  }

module _ {D : Type 0} ⦃F : Floating D⦄ where
  unfoldable pub geodist_request : Bytes → Bytes → Bytes → GeoUnit → Request D (Option D)
  geodist_request key member1 member2 unit = record {
    name = codes "GEODIST";
    args = args_4 (str key) (str member1) (str member2) (str (geo_unit_text unit));
    parse = parse_optional parse_double;
  }

module _ {D : Type 0} where
  unfoldable pub geohash_request : Bytes → Args D → Request D (List (Option Bytes))
  geohash_request key members = record {
    name = codes "GEOHASH";
    args = arg (str key) members;
    parse = parse_sequence parse_optional_string;
  }

module _ {D : Type 0} ⦃F : Floating D⦄ where
  unfoldable pub geopos_request : Bytes → Args D → Request D (List (Option (GeoPos D)))
  geopos_request key members = record {
    name = codes "GEOPOS";
    args = arg (str key) members;
    parse = parse_sequence (parse_optional parse_geo_pos);
  }

module _ {D : Type 0} where
  unfoldable pub georadius_request :
      Bytes → D → D → D → GeoUnit → List Bytes → Request D (List Bytes)
  unfolding string_args
  georadius_request key longitude latitude radius unit options = record {
    name = codes "GEORADIUS";
    args = arg (str key) (
        arg (floating longitude) (
          arg (floating latitude) (
            arg (floating radius)
              (arg (str (geo_unit_text unit)) (arg (container (string_args options)) end)))));
    parse = parse_sequence parse_string;
  }

  unfoldable pub georadiusbymember_request :
      Bytes → Bytes → D → GeoUnit → List Bytes → Request D (List Bytes)
  unfolding string_args
  georadiusbymember_request key member radius unit options = record {
    name = codes "GEORADIUSBYMEMBER";
    args =
        args_5 (str key) (str member) (floating radius) (str (geo_unit_text unit))
          (container (string_args options));
    parse = parse_sequence parse_string;
  }

module _ {D : Type 0} ⦃F : Floating D⦄ where
  unfoldable pub geosearch_request :
      Bytes → Bytes → D → GeoUnit → List Bytes → Request D (List Bytes)
  unfolding string_args
  geosearch_request key member radius unit options = record {
    name = codes "GEOSEARCH";
    args = arg (str key) (
        arg (literal (codes "FROMMEMBER")) (
          arg (str member) (
            arg (literal (codes "BYRADIUS")) (
              arg (str (F.show radius))
                (arg (str (geo_unit_text unit)) (arg (container (string_args options)) end))))));
    parse = parse_sequence parse_string;
  }
