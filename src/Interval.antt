-- ===== src/Interval.antt =====
-- redis.cpp: the intervals of range queries, as the two texts that a command sends, and the words of
-- the enumerations.
pub mod Endpoints
use qbm_redis.Base.{Bytes, ◌∷◌, codes}
use qbm_redis.Floating.{Floating}
use qbm_redis.Types.{
  UpdateType, exist, not_exist, always, InsertPosition, before, after, ListPosition, left, right,
  BoundType, closed, opened, left_open, right_open, Aggregation, sum, minimum, maximum, BitOp,
  op_and, op_or, op_xor, op_not, GeoUnit, m, km, mi, ft,
}
use qbm_redis.Outcome.{error, Outcome, ok, throw}

-- `lower()` and `upper()`
pub record Interval : Type 0 where
  pub lower : Bytes
  pub upper : Bytes

abbrev pub negative_infinity_numeric : Bytes
negative_infinity_numeric = codes "-inf"

abbrev pub positive_infinity_numeric : Bytes
positive_infinity_numeric = codes "+inf"

abbrev pub negative_infinity_string : Bytes
negative_infinity_string = codes "-"

abbrev pub positive_infinity_string : Bytes
positive_infinity_string = codes "+"

unfoldable pub unbound : Bytes → Bytes
unbound bnd = b'(' ∷ bnd

unfoldable pub bound : Bytes → Bytes
bound bnd = b'[' ∷ bnd

-- `UnboundedInterval<double>`
unfoldable pub unbounded_double : Interval
unfolding codes
unbounded_double = record { lower = negative_infinity_numeric; upper = positive_infinity_numeric }

module _ {D : Type 0} ⦃F : Floating D⦄ where
  -- `BoundedInterval<double>`
  unfoldable pub bounded_double : D → D → BoundType → Interval
  unfolding unbound
  bounded_double min max closed = record { lower = F.show min; upper = F.show max }
  bounded_double min max opened = record {
    lower = unbound (F.show min);
    upper = unbound (F.show max);
  }
  bounded_double min max left_open = record { lower = unbound (F.show min); upper = F.show max }
  bounded_double min max right_open = record { lower = F.show min; upper = unbound (F.show max) }

  -- `LeftBoundedInterval<double>`
  unfoldable pub left_bounded_double : D → BoundType → Outcome Interval
  unfolding unbound codes
  left_bounded_double min opened =
      ok (record { lower = unbound (F.show min); upper = positive_infinity_numeric })
  left_bounded_double min right_open =
      ok (record { lower = F.show min; upper = positive_infinity_numeric })
  left_bounded_double min _ = throw (error (codes "Bound type can only be OPEN or RIGHT_OPEN"))

  -- `RightBoundedInterval<double>`
  unfoldable pub right_bounded_double : D → BoundType → Outcome Interval
  unfolding unbound codes
  right_bounded_double max opened =
      ok (record { lower = negative_infinity_numeric; upper = unbound (F.show max) })
  right_bounded_double max left_open =
      ok (record { lower = negative_infinity_numeric; upper = F.show max })
  right_bounded_double max _ = throw (error (codes "Bound type can only be OPEN or LEFT_OPEN"))

-- `UnboundedInterval<std::string>`
unfoldable pub unbounded_string : Interval
unfolding codes
unbounded_string = record { lower = negative_infinity_string; upper = positive_infinity_string }

-- `BoundedInterval<std::string>`
unfoldable pub bounded_string : Bytes → Bytes → BoundType → Interval
unfolding bound unbound
bounded_string min max closed = record { lower = bound min; upper = bound max }
bounded_string min max opened = record { lower = unbound min; upper = unbound max }
bounded_string min max left_open = record { lower = unbound min; upper = bound max }
bounded_string min max right_open = record { lower = bound min; upper = unbound max }

-- `LeftBoundedInterval<std::string>`
unfoldable pub left_bounded_string : Bytes → BoundType → Outcome Interval
unfolding bound unbound codes
left_bounded_string min opened =
    ok (record { lower = unbound min; upper = positive_infinity_string })
left_bounded_string min right_open =
    ok (record { lower = bound min; upper = positive_infinity_string })
left_bounded_string min _ = throw (error (codes "Bound type can only be OPEN or RIGHT_OPEN"))

-- `RightBoundedInterval<std::string>`
unfoldable pub right_bounded_string : Bytes → BoundType → Outcome Interval
unfolding bound unbound codes
right_bounded_string max opened =
    ok (record { lower = negative_infinity_string; upper = unbound max })
right_bounded_string max left_open =
    ok (record { lower = negative_infinity_string; upper = bound max })
right_bounded_string max _ = throw (error (codes "Bound type can only be OPEN or LEFT_OPEN"))

-- The overloads of `std::to_string`.
unfoldable pub bit_op_text : BitOp → Bytes
unfolding codes
bit_op_text op_and = codes "AND"
bit_op_text op_or = codes "OR"
bit_op_text op_xor = codes "XOR"
bit_op_text op_not = codes "NOT"

unfoldable pub update_type_text : UpdateType → Bytes
unfolding codes
update_type_text exist = codes "XX"
update_type_text not_exist = codes "NX"
update_type_text always = codes ""

unfoldable pub aggregation_text : Aggregation → Bytes
unfolding codes
aggregation_text sum = codes "SUM"
aggregation_text minimum = codes "MIN"
aggregation_text maximum = codes "MAX"

unfoldable pub geo_unit_text : GeoUnit → Bytes
unfolding codes
geo_unit_text m = codes "m"
geo_unit_text km = codes "km"
geo_unit_text mi = codes "mi"
geo_unit_text ft = codes "ft"

unfoldable pub insert_position_text : InsertPosition → Bytes
unfolding codes
insert_position_text before = codes "BEFORE"
insert_position_text after = codes "AFTER"

unfoldable pub list_position_text : ListPosition → Bytes
unfolding codes
list_position_text left = codes "LEFT"
list_position_text right = codes "RIGHT"
