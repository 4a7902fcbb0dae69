-- ===== src/Commands/Lists/Items.antt =====
-- list_commands.h: the commands that read and change a list inside, and those that move an element.
use qbm_redis.Base.{◌||◌, List, [], ◌∷◌, ◌++◌, Option, none, some, String, Bytes, codes, is_empty}
use qbm_redis.Base.Int.{ℤ, pos, negsuc}
use qbm_redis.Decimal.{to_string}
use qbm_redis.Types.{InsertPosition, ListPosition, Status}
use qbm_redis.Interval.{insert_position_text, list_position_text}
use qbm_redis.Wire.{str, number, container}
use qbm_redis.Reply.Scalars.{parse_string, parse_long_long, parse_status}
use qbm_redis.Reply.Containers.{parse_sequence}
use qbm_redis.Commands.{Request, Call, unless, args_2, args_3, args_4}
use qbm_redis.Commands.Arguments.{string_args, parse_optional_string}

-- `status` without a text
abbrev no_status : Status
no_status = record { str = [] }

module _ {D : Type 0} where
  unfoldable pub lindex_request : Bytes → ℤ → Request D (Option Bytes)
  lindex_request key index = record {
    name = codes "LINDEX";
    args = args_2 (str key) (number index);
    parse = parse_optional_string;
  }

  unfoldable pub lindex : Bytes → ℤ → Call D (Option Bytes)
  unfolding lindex_request is_empty
  lindex key index = unless (is_empty key) none (lindex_request key index)

  unfoldable pub linsert_request : Bytes → InsertPosition → Bytes → Bytes → Request D ℤ
  unfolding insert_position_text
  linsert_request key position pivot val = record {
    name = codes "LINSERT";
    args = args_4 (str key) (str (insert_position_text position)) (str pivot) (str val);
    parse = parse_long_long;
  }

  unfoldable pub linsert : Bytes → InsertPosition → Bytes → Bytes → Call D ℤ
  unfolding linsert_request is_empty
  linsert key position pivot val =
      unless (is_empty key || is_empty pivot || is_empty val) (negsuc 0)
        (linsert_request key position pivot val)

  unfoldable pub lrange_request : Bytes → ℤ → ℤ → Request D (List Bytes)
  lrange_request key start stop = record {
    name = codes "LRANGE";
    args = args_3 (str key) (number start) (number stop);
    parse = parse_sequence parse_string;
  }

  unfoldable pub lrange : Bytes → ℤ → ℤ → Call D (List Bytes)
  unfolding lrange_request is_empty
  lrange key start stop = unless (is_empty key) [] (lrange_request key start stop)

  unfoldable pub lrem_request : Bytes → ℤ → Bytes → Request D ℤ
  lrem_request key count val = record {
    name = codes "LREM";
    args = args_3 (str key) (number count) (str val);
    parse = parse_long_long;
  }

  unfoldable pub lrem : Bytes → ℤ → Bytes → Call D ℤ
  unfolding lrem_request is_empty
  lrem key count val = unless (is_empty key || is_empty val) (pos 0) (lrem_request key count val)

  unfoldable pub lset_request : Bytes → ℤ → Bytes → Request D Status
  lset_request key index val = record {
    name = codes "LSET";
    args = args_3 (str key) (number index) (str val);
    parse = parse_status;
  }

  unfoldable pub lset : Bytes → ℤ → Bytes → Call D Status
  unfolding lset_request is_empty
  lset key index val = unless (is_empty key || is_empty val) no_status (lset_request key index val)

  unfoldable pub ltrim_request : Bytes → ℤ → ℤ → Request D Status
  ltrim_request key start stop = record {
    name = codes "LTRIM";
    args = args_3 (str key) (number start) (number stop);
    parse = parse_status;
  }

  unfoldable pub ltrim : Bytes → ℤ → ℤ → Call D Status
  unfolding ltrim_request is_empty
  ltrim key start stop = unless (is_empty key) no_status (ltrim_request key start stop)

  unfoldable pub rpoplpush_request : Bytes → Bytes → Request D (Option Bytes)
  rpoplpush_request source destination = record {
    name = codes "RPOPLPUSH";
    args = args_2 (str source) (str destination);
    parse = parse_optional_string;
  }

  unfoldable pub rpoplpush : Bytes → Bytes → Call D (Option Bytes)
  unfolding rpoplpush_request is_empty
  rpoplpush source destination =
      unless (is_empty source || is_empty destination) none (rpoplpush_request source destination)

  unfoldable pub lmove_request :
      Bytes → Bytes → ListPosition → ListPosition → Request D (Option Bytes)
  unfolding list_position_text
  lmove_request source destination wherefrom whereto = record {
    name = codes "LMOVE";
    args =
        args_4 (str source) (str destination) (str (list_position_text wherefrom))
          (str (list_position_text whereto));
    parse = parse_optional_string;
  }

  unfoldable pub lmove : Bytes → Bytes → ListPosition → ListPosition → Call D (Option Bytes)
  unfolding lmove_request is_empty
  lmove source destination wherefrom whereto =
      unless (is_empty source || is_empty destination) none
        (lmove_request source destination wherefrom whereto)

-- The options of LPOS: `args.push_back(...)`, in order.
option_words : String → Option ℤ → List Bytes
option_words name none = []
option_words name (some n) = codes name ∷ to_string n ∷ []

count_text : Option ℤ → Bytes
count_text none = codes "0"
count_text (some n) = to_string n

unfoldable pub lpos_args : Option ℤ → Option ℤ → Option ℤ → List Bytes
unfolding option_words count_text
lpos_args rank count maxlen =
    option_words "RANK" rank ++ (codes "COUNT" ∷ count_text count ∷ option_words "MAXLEN" maxlen)

module _ {D : Type 0} where
  unfoldable pub lpos_request : Bytes → Bytes → Option ℤ → Option ℤ → Option ℤ → Request D (List ℤ)
  unfolding lpos_args string_args
  lpos_request key element rank count maxlen = record {
    name = codes "LPOS";
    args = args_3 (str key) (str element) (container (string_args (lpos_args rank count maxlen)));
    parse = parse_sequence parse_long_long;
  }

  -- The overload with a callback returns early as well, and never calls it then.
  unfoldable pub lpos : Bytes → Bytes → Option ℤ → Option ℤ → Option ℤ → Call D (List ℤ)
  unfolding lpos_request is_empty
  lpos key element rank count maxlen =
      unless (is_empty key || is_empty element) [] (lpos_request key element rank count maxlen)
