-- ===== src/Tests/Commands.antt =====
-- The theorems on the command classes and on intervals at concrete inputs.
use qbm_redis.Base.{◌∷◌, ◌≡◌, refl, true, false, [], some, codes, same_bytes}
use qbm_redis.Base.Int.{pos, negsuc}
use qbm_redis.Decimal.{to_string}
use qbm_redis.Types.{opened, left_open}
use qbm_redis.Interval.{
  unbounded_double, bounded_double, left_bounded_double, right_bounded_double, unbounded_string,
  bounded_string, left_bounded_string, right_bounded_string,
}
use qbm_redis.Interval.Endpoints.{
  minus_infinity, plus_infinity, lower_end, upper_end, lex_ends, score_ends, read_score, LexLeft,
  LexRight, ScoreLeft, ScoreRight, string_intervals, double_intervals,
}
use qbm_redis.Commands.Transaction.{multi, after_sync}
use qbm_redis.Commands.Transaction.Flag.{
  Connection, fresh, issue, reply_to, start, issued, answered, opens, is_in_multi-agrees,
  nested_multi, refuses,
}
use qbm_redis.Tests.{integers}

abbrev opened_connection : Connection
opened_connection = reply_to multi [] true true (issue multi fresh)

is_in_multi-agrees_example : opened_connection.exec_flag ≡ opened_connection.in_transaction
unfolding issue reply_to
is_in_multi-agrees_example =
    is_in_multi-agrees opened_connection
      (answered (issued start multi) multi [] true true refl (opens refl refl refl)) refl

nested_multi_example :
    let d = reply_to multi [] false true (issue multi opened_connection) in
    (opened_connection.exec_flag ≡ true)
    × ((issue multi opened_connection).pending ≡ multi ∷ [])
    × (d.in_transaction ≡ true)
    × (d.exec_flag ≡ false)
    × (after_sync multi false opened_connection.exec_flag ≡ true)
unfolding issue reply_to
nested_multi_example =
    nested_multi opened_connection false true
      (answered (issued start multi) multi [] true true refl (opens refl refl refl)) refl
      (refuses refl refl refl)

string_intervals_example :
    (lex_ends unbounded_string ≡ (some minus_infinity, some plus_infinity))
    × (lex_ends (bounded_string (codes "a") (codes "(") left_open)
        ≡ (some (lower_end left_open (codes "a")), some (upper_end left_open (codes "("))))
    × LexLeft (codes "a") left_open (left_bounded_string (codes "a") left_open)
    × LexRight (codes "(") left_open (right_bounded_string (codes "(") left_open)
string_intervals_example = string_intervals (codes "a") (codes "(") left_open

double_intervals_example :
    (score_ends unbounded_double ≡ (minus_infinity, plus_infinity))
    × (score_ends (bounded_double (negsuc 4) (pos 7) opened)
        ≡ (lower_end opened (to_string (negsuc 4)), upper_end opened (to_string (pos 7))))
    × ScoreLeft (negsuc 4) opened (left_bounded_double (negsuc 4) opened)
    × ScoreRight (pos 7) opened (right_bounded_double (pos 7) opened)
unfolding read_score to_string same_bytes codes
double_intervals_example = double_intervals (negsuc 4) (pos 7) opened refl refl
