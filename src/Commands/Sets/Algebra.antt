-- ===== src/Commands/Sets/Algebra.antt =====
-- set_commands.h: differences, intersections and unions of sets.
use qbm_redis.Base.{◌||◌, List, [], ◌∷◌, Option, none, some, Bytes, codes, is_empty, length}
use qbm_redis.Base.Int.{ℤ, pos}
use qbm_redis.Decimal.{to_string}
use qbm_redis.Wire.{str, number, container}
use qbm_redis.Reply.Scalars.{parse_string, parse_long_long}
use qbm_redis.Reply.Containers.{parse_sequence}
use qbm_redis.Commands.{Request, Call, unless, args_1, args_2, args_3}
use qbm_redis.Commands.Arguments.{string_args}

-- `args` of SINTERCARD
unfoldable pub limit_args : Option ℤ → List Bytes
limit_args none = []
limit_args (some n) = codes "LIMIT" ∷ to_string n ∷ []

module _ {D : Type 0} where
  unfoldable pub sdiff_request : List Bytes → Request D (List Bytes)
  unfolding string_args
  sdiff_request keys = record {
    name = codes "SDIFF";
    args = args_1 (container (string_args keys));
    parse = parse_sequence parse_string;
  }

  unfoldable pub sdiff : List Bytes → Call D (List Bytes)
  unfolding sdiff_request is_empty
  sdiff keys = unless (is_empty keys) [] (sdiff_request keys)

  unfoldable pub sinter_request : List Bytes → Request D (List Bytes)
  unfolding string_args
  sinter_request keys = record {
    name = codes "SINTER";
    args = args_1 (container (string_args keys));
    parse = parse_sequence parse_string;
  }

  unfoldable pub sinter : List Bytes → Call D (List Bytes)
  unfolding sinter_request is_empty
  sinter keys = unless (is_empty keys) [] (sinter_request keys)

  unfoldable pub sunion_request : List Bytes → Request D (List Bytes)
  unfolding string_args
  sunion_request keys = record {
    name = codes "SUNION";
    args = args_1 (container (string_args keys));
    parse = parse_sequence parse_string;
  }

  unfoldable pub sunion : List Bytes → Call D (List Bytes)
  unfolding sunion_request is_empty
  sunion keys = unless (is_empty keys) [] (sunion_request keys)

  unfoldable pub sdiffstore_request : Bytes → List Bytes → Request D ℤ
  unfolding string_args
  sdiffstore_request destination keys = record {
    name = codes "SDIFFSTORE";
    args = args_2 (str destination) (container (string_args keys));
    parse = parse_long_long;
  }

  unfoldable pub sdiffstore : Bytes → List Bytes → Call D ℤ
  unfolding sdiffstore_request is_empty
  sdiffstore destination keys =
      unless (is_empty destination || is_empty keys) (pos 0) (sdiffstore_request destination keys)

  unfoldable pub sinterstore_request : Bytes → List Bytes → Request D ℤ
  unfolding string_args
  sinterstore_request destination keys = record {
    name = codes "SINTERSTORE";
    args = args_2 (str destination) (container (string_args keys));
    parse = parse_long_long;
  }

  unfoldable pub sinterstore : Bytes → List Bytes → Call D ℤ
  unfolding sinterstore_request is_empty
  sinterstore destination keys =
      unless (is_empty destination || is_empty keys) (pos 0) (sinterstore_request destination keys)

  unfoldable pub sunionstore_request : Bytes → List Bytes → Request D ℤ
  unfolding string_args
  sunionstore_request destination keys = record {
    name = codes "SUNIONSTORE";
    args = args_2 (str destination) (container (string_args keys));
    parse = parse_long_long;
  }

  unfoldable pub sunionstore : Bytes → List Bytes → Call D ℤ
  unfolding sunionstore_request is_empty
  sunionstore destination keys =
      unless (is_empty destination || is_empty keys) (pos 0) (sunionstore_request destination keys)

  unfoldable pub sintercard_request : List Bytes → Option ℤ → Request D ℤ
  unfolding string_args limit_args
  sintercard_request keys limit = record {
    name = codes "SINTERCARD";
    args =
        args_3 (number (pos (length keys))) (container (string_args keys))
          (container (string_args (limit_args limit)));
    parse = parse_long_long;
  }

  unfoldable pub sintercard : List Bytes → Option ℤ → Call D ℤ
  unfolding sintercard_request is_empty
  sintercard keys limit = unless (is_empty keys) (pos 0) (sintercard_request keys limit)
