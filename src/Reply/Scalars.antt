-- ===== src/Reply/Scalars.antt =====
-- reply.cpp: replies turned into texts, numbers, truth values and statuses.
pub mod Laws
use qbm_redis.Base.{
  ℕ, Bool, true, false, not, ◌&&◌, List, [], ◌∷◌, ◌++◌, Option, none, some, String, Bytes, codes,
  ◌==◌, if◌then◌else◌,
}
use qbm_redis.Base.Int.{ℤ, pos, negsuc, eqb_ℤ}
use qbm_redis.Decimal.{to_string, Numeric, value, invalid_argument, out_of_range}
use qbm_redis.Floating.{Floating}
use qbm_redis.Types.{Status}
use qbm_redis.Outcome.{Exception, proto_error, Outcome, ok, throw, ◌>>=◌, ◌>>◌, throw_if}
use qbm_redis.Reply.{
  RedisReply, type_of, integer_of, str_of, is_nil, is_string, is_status, is_integer, is_array,
  expected,
}

-- `if (str == nullptr) throw ProtoError(text);`
unfoldable pub not_null : Option Bytes → String → Outcome Bytes
not_null none text = throw (proto_error (codes text))
not_null (some s) text = ok s

-- `std::string_view`; an array is the reply to a PING of a subscriber.
unfoldable pub parse_string_view : RedisReply → Outcome Bytes
unfolding not_null is_array is_string is_status
parse_string_view r =
    if is_array r
    then ok (codes "PONG")
    else if not (is_string r) && not (is_status r)
    then throw (expected "STRING or STATUS" r)
    else not_null (str_of r) "A null string reply"

unfoldable pub parse_string : RedisReply → Outcome Bytes
unfolding is_integer parse_string_view
parse_string r = if is_integer r then ok (to_string (integer_of r)) else parse_string_view r

unfoldable pub parse_long_long : RedisReply → Outcome ℤ
unfolding is_integer
parse_long_long r = if not (is_integer r) then throw (expected "INTEGER" r) else ok (integer_of r)

module _ {D : Type 0} where
  -- The two `catch` clauses around `std::stod`.
  unfoldable pub double_of : Numeric D → Outcome D
  double_of (value x) = ok x
  double_of invalid_argument = throw (proto_error (codes "not a double reply"))
  double_of out_of_range = throw (proto_error (codes "double reply out of range"))

module _ {D : Type 0} ⦃F : Floating D⦄ where
  unfoldable pub parse_double : RedisReply → Outcome D
  unfolding parse_string double_of
  parse_double r = do s ← parse_string r; double_of (F.stod s)

bool_of : ℤ → Outcome Bool
bool_of ret =
    if eqb_ℤ ret (pos 1)
    then ok true
    else if eqb_ℤ ret (pos 0)
    then ok false
    else throw (proto_error (codes "Invalid bool reply: " ++ to_string ret))

unfoldable pub parse_bool : RedisReply → Outcome Bool
unfolding is_nil parse_long_long eqb_ℤ bool_of
parse_bool r = if is_nil r then ok false else (do ret ← parse_long_long r; bool_of ret)

-- `to_status`
unfoldable pub to_status : RedisReply → Outcome Status
unfolding is_status not_null
to_status r = do
  throw_if (not (is_status r)) (expected "STATUS" r)
  s ← not_null (str_of r) "A null status reply"
  ok (record { str = s })

unfoldable pub parse_status : RedisReply → Outcome Status
unfolding is_status not_null
parse_status r = do
  throw_if (not (is_status r)) (expected "STATUS" r)
  s ← not_null (str_of r) "A null status reply"
  ok (record { str = s })

unfoldable pub parse_vector_char : RedisReply → Outcome Bytes
unfolding is_string
parse_vector_char r = do
  throw_if (not (is_string r)) (expected "STRING" r)
  elim (str_of r) [ none ↦ ok [] | some s ↦ ok s ]

-- `std::chrono::milliseconds` and `std::chrono::seconds`, as the count that they hold.
unfoldable pub parse_milliseconds : RedisReply → Outcome ℤ
unfolding is_integer
parse_milliseconds r =
    if not (is_integer r) then throw (expected "INTEGER" r) else ok (integer_of r)

unfoldable pub parse_seconds : RedisReply → Outcome ℤ
unfolding is_integer
parse_seconds r = if not (is_integer r) then throw (expected "INTEGER" r) else ok (integer_of r)
