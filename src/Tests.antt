-- ===== src/Tests.antt =====
-- Concrete inputs for the theorems: the integers in the place of `double`, and some replies.
pub mod Wire
pub mod Reply
pub mod Client
pub mod Commands
pub mod Scanner
pub mod Json
pub mod Session
use qbm_redis.Base.{[], Option, none, some, codes}
use qbm_redis.Base.Int.{ℤ, pos, ltb_ℤ, eqb_ℤ}
use qbm_redis.Decimal.{to_string, stoll}
use qbm_redis.Floating.{Floating}
use qbm_redis.Outcome.{Outcome, ok}
use qbm_redis.Reply.Json.{JsonText}
use qbm_redis.Reply.{
  RedisReply, reply, Elements, null_array, reply_integer, reply_nil, reply_status, reply_error,
}

instance abbrev pub integers : Floating ℤ
integers = record { show = to_string; stod = stoll; zero_value = pos 0; same = eqb_ℤ; less = ltb_ℤ }

-- A parser of JSON texts that knows no text.
instance abbrev pub no_texts : JsonText ℤ
no_texts = record { parse_text = λ s. none }

abbrev pub nil_reply : RedisReply
nil_reply = reply reply_nil (pos 0) none (null_array 0)

abbrev pub ok_reply : RedisReply
ok_reply = reply reply_status (pos 0) (some (codes "OK")) (null_array 0)

abbrev pub error_reply : RedisReply
error_reply = reply reply_error (pos 0) (some (codes "ERR")) (null_array 0)

abbrev pub integer_reply : ℤ → RedisReply
integer_reply n = reply reply_integer n none (null_array 0)
