-- ===== src/Commands/SortedSets/Ranges.antt =====
-- sorted_set_commands.h: the commands on ranges of ranks, scores and members.
use qbm_redis.Base.{List, some, Bytes, codes}
use qbm_redis.Base.Int.{ℤ}
use qbm_redis.Decimal.{to_string}
use qbm_redis.Floating.{Floating}
use qbm_redis.Types.{ScoreMember, LimitOptions}
use qbm_redis.Interval.{Interval}
use qbm_redis.Reply.Scalars.{parse_string, parse_long_long}
use qbm_redis.Reply.Records.{parse_score_members}
use qbm_redis.Reply.Containers.{parse_sequence}
use qbm_redis.Commands.{Request, args_3, args_4}
use qbm_redis.Wire.{literal, c_str, str, number, end, arg}
use qbm_redis.Commands.SortedSets.{from_offset}

module _ {D : Type 0} where
  unfoldable pub zcount_request : Bytes → Interval → Request D ℤ
  zcount_request key interval = record {
    name = codes "ZCOUNT";
    args = args_3 (str key) (str interval.lower) (str interval.upper);
    parse = parse_long_long;
  }

  unfoldable pub zlexcount_request : Bytes → Interval → Request D ℤ
  zlexcount_request key interval = record {
    name = codes "ZLEXCOUNT";
    args = args_3 (str key) (str interval.lower) (str interval.upper);
    parse = parse_long_long;
  }

module _ {D : Type 0} ⦃F : Floating D⦄ where
  unfoldable pub zrange_request : Bytes → ℤ → ℤ → Request D (List (ScoreMember D))
  zrange_request key start stop = record {
    name = codes "ZRANGE";
    args = args_4 (str key) (number start) (number stop) (literal (codes "WITHSCORES"));
    parse = parse_score_members;
  }

module _ {D : Type 0} where
  unfoldable pub zrangebylex_request : Bytes → Interval → LimitOptions → Request D (List Bytes)
  zrangebylex_request key interval opts = record {
    name = codes "ZRANGEBYLEX";
    args = arg (str key) (
        arg (str interval.lower) (
          arg (str interval.upper) (
            arg (literal (codes "LIMIT"))
              (arg (number opts.offset) (arg (number opts.count) end)))));
    parse = parse_sequence parse_string;
  }

  unfoldable pub zrangebylex_func_request : Bytes → Interval → LimitOptions → Request D (List Bytes)
  unfolding from_offset
  zrangebylex_func_request key interval opts = record {
    name = codes "ZRANGEBYLEX";
    args = arg (str key) (
        arg (str interval.lower) (
          arg (str interval.upper) (
            arg (c_str (some (from_offset opts (codes "LIMIT")))) (
              arg (str (from_offset opts (to_string opts.offset)))
                (arg (str (from_offset opts (to_string opts.count))) end)))));
    parse = parse_sequence parse_string;
  }

module _ {D : Type 0} ⦃F : Floating D⦄ where
  unfoldable pub zrangebyscore_request :
      Bytes → Interval → LimitOptions → Request D (List (ScoreMember D))
  zrangebyscore_request key interval opts = record {
    name = codes "ZRANGEBYSCORE";
    args = arg (str key) (
        arg (str interval.lower) (
          arg (str interval.upper) (
            arg (literal (codes "WITHSCORES")) (
              arg (literal (codes "LIMIT"))
                (arg (number opts.offset) (arg (number opts.count) end))))));
    parse = parse_score_members;
  }

  unfoldable pub zrangebyscore_func_request :
      Bytes → Interval → LimitOptions → Request D (List (ScoreMember D))
  unfolding from_offset
  zrangebyscore_func_request key interval opts = record {
    name = codes "ZRANGEBYSCORE";
    args = arg (str key) (
        arg (str interval.lower) (
          arg (str interval.upper) (
            arg (c_str (some (from_offset opts (codes "LIMIT")))) (
              arg (str (from_offset opts (to_string opts.offset))) (
                arg (str (from_offset opts (to_string opts.count)))
                  (arg (literal (codes "WITHSCORES")) end))))));
    parse = parse_score_members;
  }

module _ {D : Type 0} where
  unfoldable pub zremrangebylex_request : Bytes → Interval → Request D ℤ
  zremrangebylex_request key interval = record {
    name = codes "ZREMRANGEBYLEX";
    args = args_3 (str key) (str interval.lower) (str interval.upper);
    parse = parse_long_long;
  }

  unfoldable pub zremrangebyrank_request : Bytes → ℤ → ℤ → Request D ℤ
  zremrangebyrank_request key start stop = record {
    name = codes "ZREMRANGEBYRANK";
    args = args_3 (str key) (number start) (number stop);
    parse = parse_long_long;
  }

  unfoldable pub zremrangebyscore_request : Bytes → Interval → Request D ℤ
  zremrangebyscore_request key interval = record {
    name = codes "ZREMRANGEBYSCORE";
    args = args_3 (str key) (str interval.lower) (str interval.upper);
    parse = parse_long_long;
  }

module _ {D : Type 0} ⦃F : Floating D⦄ where
  unfoldable pub zrevrange_request : Bytes → ℤ → ℤ → Request D (List (ScoreMember D))
  zrevrange_request key start stop = record {
    name = codes "ZREVRANGE";
    args = args_4 (str key) (number start) (number stop) (literal (codes "WITHSCORES"));
    parse = parse_score_members;
  }

module _ {D : Type 0} where
  unfoldable pub zrevrangebylex_request : Bytes → Interval → LimitOptions → Request D (List Bytes)
  zrevrangebylex_request key interval opt = record {
    name = codes "ZREVRANGEBYLEX";
    args = arg (str key) (
        arg (str interval.upper) (
          arg (str interval.lower) (
            arg (literal (codes "LIMIT")) (arg (number opt.offset) (arg (number opt.count) end)))));
    parse = parse_sequence parse_string;
  }

module _ {D : Type 0} ⦃F : Floating D⦄ where
  unfoldable pub zrevrangebyscore_request :
      Bytes → Interval → LimitOptions → Request D (List (ScoreMember D))
  zrevrangebyscore_request key interval opt = record {
    name = codes "ZREVRANGEBYSCORE";
    args = arg (str key) (
        arg (str interval.upper) (
          arg (str interval.lower) (
            arg (literal (codes "WITHSCORES")) (
              arg (literal (codes "LIMIT"))
                (arg (number opt.offset) (arg (number opt.count) end))))));
    parse = parse_score_members;
  }
