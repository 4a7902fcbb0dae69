-- ===== src/Reply/Scalars/Laws.antt =====
-- reply.cpp: what the scalar `parse` functions accept, and what they throw.
use qbm_redis.Base.{Option, none, some, String, Bytes, arith}
use qbm_redis.Base.Int.{ℤ}
use qbm_redis.Decimal.{Numeric, value, invalid_argument, out_of_range}
use qbm_redis.Floating.{Floating}
use qbm_redis.Outcome.{IsCaught}
use qbm_redis.Outcome.Caught.{>>=-IsCaught}
use qbm_redis.Reply.{RedisReply, expected}
use qbm_redis.Reply.Scalars.{
  parse_milliseconds, not_null, parse_string_view, parse_string, parse_long_long, parse_double,
  double_of, parse_bool, bool_of, parse_status, parse_vector_char,
}

not_null-IsCaught : (s : Option Bytes) (text : String) → IsCaught (not_null s text)
unfolding not_null
not_null-IsCaught none text = tt
not_null-IsCaught (some s) text = tt

pub parse_string_view-IsCaught : (r : RedisReply) → IsCaught (parse_string_view r)
unfolding parse_string_view expected
parse_string_view-IsCaught r = ground arith

pub parse_string-IsCaught : (r : RedisReply) → IsCaught (parse_string r)
unfolding parse_string expected
parse_string-IsCaught r = ground arith

pub parse_long_long-IsCaught : (r : RedisReply) → IsCaught (parse_long_long r)
unfolding parse_long_long expected
parse_long_long-IsCaught r = ground arith

module _ {D : Type 0} where
  double_of-IsCaught : (n : Numeric D) → IsCaught (double_of n)
  unfolding double_of
  double_of-IsCaught (value x) = tt
  double_of-IsCaught invalid_argument = tt
  double_of-IsCaught out_of_range = tt

module _ (D : Type 0) ⦃F : Floating D⦄ where
  pub parse_double-IsCaught : (r : RedisReply) → IsCaught (parse_double {D = D} r)
  unfolding parse_double
  parse_double-IsCaught r =
      >>=-IsCaught (parse_string r) (λ s. double_of (F.stod s)) (parse_string-IsCaught r)
        (λ s. double_of-IsCaught (F.stod s))

bool_of-IsCaught : (n : ℤ) → IsCaught (bool_of n)
unfolding bool_of
bool_of-IsCaught n = ground arith

pub parse_bool-IsCaught : (r : RedisReply) → IsCaught (parse_bool r)
unfolding parse_bool expected
parse_bool-IsCaught r = ground arith

pub parse_status-IsCaught : (r : RedisReply) → IsCaught (parse_status r)
unfolding parse_status expected
parse_status-IsCaught r = ground arith

pub parse_vector_char-IsCaught : (r : RedisReply) → IsCaught (parse_vector_char r)
unfolding parse_vector_char expected
parse_vector_char-IsCaught r = ground arith

-- `parse<std::chrono::milliseconds>`; that of seconds is the same.
pub parse_milliseconds-IsCaught : (r : RedisReply) → IsCaught (parse_milliseconds r)
unfolding parse_milliseconds expected
parse_milliseconds-IsCaught r = ground arith
