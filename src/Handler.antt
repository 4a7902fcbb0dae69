-- ===== src/Handler.antt =====
-- reply.h: `Reply<T>`, what a callback is given, and `TReply`, which parses a raw reply and calls it.
pub mod Laws
use qbm_redis.Base.{Bool, true, false, [], Option, none, some, Bytes}
use qbm_redis.Outcome.{proto_error, parse_error, Outcome, ok, throw, fault}
use qbm_redis.Reply.{RedisReply, str_of}

-- `_ok`, `_result`, `_raw` and `_error`
pub record Reply (T : Type 0) : Type 0 where
  pub is_ok : Bool
  pub result : T
  pub raw : Option RedisReply
  pub error : Bytes

-- `{raw->str, raw->len}`
abbrev pub text_of : Option Bytes → Bytes
text_of none = []
text_of (some s) = s

-- An `IReply` in the queue of a client: what its call on a raw reply (or a null pointer) comes to.
-- `E` is what the callback does, as far as its caller can see it.
abbrev pub Handler : Type 0 → Type 0
Handler E = Option RedisReply → Outcome E

-- `Reply<T>{false, {}, reply_ptr(raw), {raw->str, raw->len}}`
abbrev pub failed : {T : Type 0} → T → RedisReply → Reply T
failed default raw = record {
  is_ok = false;
  result = default;
  raw = some raw;
  error = text_of (str_of raw);
}

module _ {T E : Type 0} (parse : RedisReply → Outcome T) (default : T) (func : Reply T → E) where
  answer : RedisReply → Outcome T → Outcome E
  answer raw (ok value) =
      ok (func (record { is_ok = true; result = value; raw = some raw; error = [] }))
  answer raw (throw (proto_error m)) = ok (func (failed default raw))
  answer raw (throw (parse_error m)) = ok (func (failed default raw))
  answer raw (throw e) = throw e
  answer raw fault = fault

  -- `TReply<Func, T>::operator()`; the reply is parsed through the pointer with no test of it.
  unfoldable pub treply : Handler E
  unfolding answer
  treply none = fault
  treply (some raw) = answer raw (parse raw)
