-- ===== src/Commands/SortedSets/Members.antt =====
-- sorted_set_commands.h: the commands on the members of sorted sets, and on whole sets.
use qbm_redis.Base.{Bool, not, List, [], Option, Bytes, codes, length, is_empty, same_bytes}
use qbm_redis.Base.Int.{ℤ, pos}
use qbm_redis.Floating.{Floating}
use qbm_redis.Types.{Scan, ScoreMember, UpdateType, Aggregation}
use qbm_redis.Interval.{aggregation_text}
use qbm_redis.Reply.Scalars.{parse_string, parse_long_long, parse_double}
use qbm_redis.Reply.Records.{parse_score_members}
use qbm_redis.Reply.Containers.{parse_optional, parse_scan, parse_map}
use qbm_redis.Commands.{Request, Call, unless, args_1, args_2, args_3, args_4}
use qbm_redis.Commands.Arguments.{string_args, optional_arg, flag, member_args, floating_args}
use qbm_redis.Wire.{literal, str, number, floating, container, end, arg}
use qbm_redis.Commands.SortedSets.{update_opt, parse_popped}

module _ {D : Type 0} ⦃F : Floating D⦄ where
  unfoldable pub bzpopmax_request : List Bytes → ℤ → Request D (Option (Bytes × (Bytes × D)))
  unfolding string_args
  bzpopmax_request keys timeout = record {
    name = codes "BZPOPMAX";
    args = args_2 (container (string_args keys)) (number timeout);
    parse = parse_optional parse_popped;
  }

  unfoldable pub bzpopmin_request : List Bytes → ℤ → Request D (Option (Bytes × (Bytes × D)))
  unfolding string_args
  bzpopmin_request keys timeout = record {
    name = codes "BZPOPMIN";
    args = args_2 (container (string_args keys)) (number timeout);
    parse = parse_optional parse_popped;
  }

module _ {D : Type 0} where
  unfoldable pub zadd_request : Bytes → List (ScoreMember D) → UpdateType → Bool → Request D ℤ
  unfolding optional_arg member_args flag update_opt
  zadd_request key members type changed = record {
    name = codes "ZADD";
    args =
        args_4 (str key) (optional_arg (update_opt type)) (optional_arg (flag changed (codes "CH")))
          (container (member_args members));
    parse = parse_long_long;
  }

  unfoldable pub zcard_request : Bytes → Request D ℤ
  zcard_request key = record {
    name = codes "ZCARD";
    args = args_1 (str key);
    parse = parse_long_long;
  }

module _ {D : Type 0} ⦃F : Floating D⦄ where
  unfoldable pub zincrby_request : Bytes → D → Bytes → Request D D
  zincrby_request key increment member = record {
    name = codes "ZINCRBY";
    args = args_3 (str key) (floating increment) (str member);
    parse = parse_double;
  }

  unfoldable pub zpopmax_request : Bytes → ℤ → Request D (List (ScoreMember D))
  zpopmax_request key count = record {
    name = codes "ZPOPMAX";
    args = args_2 (str key) (number count);
    parse = parse_score_members;
  }

  unfoldable pub zpopmin_request : Bytes → ℤ → Request D (List (ScoreMember D))
  zpopmin_request key count = record {
    name = codes "ZPOPMIN";
    args = args_2 (str key) (number count);
    parse = parse_score_members;
  }

module _ {D : Type 0} where
  unfoldable pub zrank_request : Bytes → Bytes → Request D (Option ℤ)
  zrank_request key member = record {
    name = codes "ZRANK";
    args = args_2 (str key) (str member);
    parse = parse_optional parse_long_long;
  }

  unfoldable pub zrevrank_request : Bytes → Bytes → Request D (Option ℤ)
  zrevrank_request key member = record {
    name = codes "ZREVRANK";
    args = args_2 (str key) (str member);
    parse = parse_optional parse_long_long;
  }

  unfoldable pub zrem_request : Bytes → List Bytes → Request D ℤ
  unfolding string_args
  zrem_request key members = record {
    name = codes "ZREM";
    args = args_2 (str key) (container (string_args members));
    parse = parse_long_long;
  }

module _ {D : Type 0} ⦃F : Floating D⦄ where
  unfoldable pub zscore_request : Bytes → Bytes → Request D (Option D)
  zscore_request key member = record {
    name = codes "ZSCORE";
    args = args_2 (str key) (str member);
    parse = parse_optional parse_double;
  }

  unfoldable pub zscan_request : Bytes → ℤ → Bytes → ℤ → Request D (Scan (List (Bytes × D)))
  zscan_request key cursor pattern count = record {
    name = codes "ZSCAN";
    args = arg (str key) (
        arg (number cursor) (
          arg (literal (codes "MATCH"))
            (arg (str pattern) (arg (literal (codes "COUNT")) (arg (number count) end)))));
    parse = parse_scan (parse_map same_bytes parse_string parse_double);
  }

  unfoldable pub zscan : Bytes → ℤ → Bytes → ℤ → Call D (Scan (List (Bytes × D)))
  unfolding zscan_request is_empty
  zscan key cursor pattern count =
      unless (is_empty key) (record { cursor = 0; items = [] })
        (zscan_request key cursor pattern count)

module _ {D : Type 0} where
  unfoldable pub zunionstore_request : Bytes → List Bytes → List D → Aggregation → Request D ℤ
  unfolding string_args optional_arg floating_args flag
  zunionstore_request destination keys weights type = record {
    name = codes "ZUNIONSTORE";
    args = arg (str destination) (
        arg (number (pos (length keys))) (
          arg (container (string_args keys)) (
            arg (optional_arg (flag (not (is_empty weights)) (codes "WEIGHTS"))) (
              arg (container (floating_args weights))
                (arg (literal (codes "AGGREGATE")) (arg (str (aggregation_text type)) end))))));
    parse = parse_long_long;
  }

  unfoldable pub zinterstore_request : Bytes → List Bytes → List D → Aggregation → Request D ℤ
  unfolding string_args optional_arg floating_args flag
  zinterstore_request destination keys weights type = record {
    name = codes "ZINTERSTORE";
    args = arg (str destination) (
        arg (number (pos (length keys))) (
          arg (container (string_args keys)) (
            arg (optional_arg (flag (not (is_empty weights)) (codes "WEIGHTS"))) (
              arg (container (floating_args weights))
                (arg (literal (codes "AGGREGATE")) (arg (str (aggregation_text type)) end))))));
    parse = parse_long_long;
  }
