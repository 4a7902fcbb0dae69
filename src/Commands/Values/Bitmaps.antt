-- ===== src/Commands/Values/Bitmaps.antt =====
-- bitmap_commands.h: the bitmap commands. The overloads that wait return early where a key is empty.
use qbm_redis.Base.{Bool, ◌||◌, List, [], Option, Bytes, codes, is_empty}
use qbm_redis.Base.Int.{ℤ, pos, negsuc}
use qbm_redis.Reply.Scalars.{parse_long_long}
use qbm_redis.Reply.Containers.{parse_optional, parse_sequence}
use qbm_redis.Commands.{Request, Call, unless, args_2, args_3, args_4}
use qbm_redis.Commands.Arguments.{string_args, bit_of}
use qbm_redis.Wire.{str, number, container}

module _ {D : Type 0} where
  unfoldable pub bitcount_request : Bytes → ℤ → ℤ → Request D ℤ
  bitcount_request key start stop = record {
    name = codes "BITCOUNT";
    args = args_3 (str key) (number start) (number stop);
    parse = parse_long_long;
  }

  unfoldable pub bitcount : Bytes → ℤ → ℤ → Call D ℤ
  unfolding bitcount_request is_empty
  bitcount key start stop = unless (is_empty key) (pos 0) (bitcount_request key start stop)

  unfoldable pub bitfield_request : Bytes → List Bytes → Request D (List (Option ℤ))
  unfolding string_args
  bitfield_request key operations = record {
    name = codes "BITFIELD";
    args = args_2 (str key) (container (string_args operations));
    parse = parse_sequence (parse_optional parse_long_long);
  }

  unfoldable pub bitfield : Bytes → List Bytes → Call D (List (Option ℤ))
  unfolding bitfield_request is_empty
  bitfield key operations =
      unless (is_empty key || is_empty operations) ([]) (bitfield_request key operations)

  unfoldable pub bitop_request : Bytes → Bytes → List Bytes → Request D ℤ
  unfolding string_args
  bitop_request operation destkey keys = record {
    name = codes "BITOP";
    args = args_3 (str operation) (str destkey) (container (string_args keys));
    parse = parse_long_long;
  }

  unfoldable pub bitop : Bytes → Bytes → List Bytes → Call D ℤ
  unfolding bitop_request is_empty
  bitop operation destkey keys =
      unless (is_empty destkey || is_empty keys) (pos 0) (bitop_request operation destkey keys)

  unfoldable pub bitpos_request : Bytes → Bool → ℤ → ℤ → Request D ℤ
  unfolding bit_of
  bitpos_request key bit start stop = record {
    name = codes "BITPOS";
    args = args_4 (str key) (number (bit_of bit)) (number start) (number stop);
    parse = parse_long_long;
  }

  unfoldable pub bitpos : Bytes → Bool → ℤ → ℤ → Call D ℤ
  unfolding bitpos_request is_empty
  bitpos key bit start stop = unless (is_empty key) (negsuc 0) (bitpos_request key bit start stop)

  unfoldable pub getbit_request : Bytes → ℤ → Request D ℤ
  getbit_request key offset = record {
    name = codes "GETBIT";
    args = args_2 (str key) (number offset);
    parse = parse_long_long;
  }

  unfoldable pub getbit : Bytes → ℤ → Call D ℤ
  unfolding getbit_request is_empty
  getbit key offset = unless (is_empty key) (pos 0) (getbit_request key offset)

  unfoldable pub setbit_request : Bytes → ℤ → Bool → Request D ℤ
  unfolding bit_of
  setbit_request key offset value = record {
    name = codes "SETBIT";
    args = args_3 (str key) (number offset) (number (bit_of value));
    parse = parse_long_long;
  }

  unfoldable pub setbit : Bytes → ℤ → Bool → Call D ℤ
  unfolding setbit_request is_empty
  setbit key offset value = unless (is_empty key) (pos 0) (setbit_request key offset value)
