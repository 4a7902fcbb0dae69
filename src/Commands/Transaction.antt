-- ===== src/Commands/Transaction.antt =====
-- transaction_commands.h: MULTI, EXEC, DISCARD, WATCH and UNWATCH, and the flag `exec_flag_` that
-- `is_in_multi` shows.
pub mod Flag
pub mod Syntax
use qbm_redis.Base.{
  ℕ, Bool, true, false, not, List, [], ◌∷◌, ◌++◌, Option, none, some, Bytes, codes, is_empty,
  if◌then◌else◌,
}
use qbm_redis.Types.{Status}
use qbm_redis.Wire.{Arg, str, container, Args, end, arg}
use qbm_redis.Outcome.{Outcome, ok}
use qbm_redis.Reply.{RedisReply}
use qbm_redis.Reply.Scalars.{parse_status}
use qbm_redis.Reply.Containers.{parse_sequence}
use qbm_redis.Handler.{Reply}
use qbm_redis.Commands.{Request, Call, sends, returns, args_1}
use qbm_redis.Commands.Arguments.{string_args}

module _ {D : Type 0} where
  unfoldable pub multi_request : Request D Status
  multi_request = record { name = codes "MULTI"; args = end; parse = parse_status }

  unfoldable pub exec_request :
      {Result : Type 0} → (RedisReply → Outcome Result) → Request D (List Result)
  exec_request parse_result = record {
    name = codes "EXEC";
    args = end;
    parse = parse_sequence parse_result;
  }

  unfoldable pub discard_request : Request D Status
  discard_request = record { name = codes "DISCARD"; args = end; parse = parse_status }

  unfoldable pub unwatch : Request D Status
  unwatch = record { name = codes "UNWATCH"; args = end; parse = parse_status }

  -- `watch(key)`; the overload with a callback returns early too.
  unfoldable pub watch : Bytes → Call D Status
  unfolding is_empty
  watch key =
      if is_empty key
      then returns (record { str = [] })
      else sends (record { name = codes "WATCH"; args = args_1 (str key); parse = parse_status })

  -- `watch(keys)`, and what it sends
  unfoldable pub watch_request : List Bytes → Request D Status
  unfolding string_args
  watch_request keys = record {
    name = codes "WATCH";
    args = args_1 (container (string_args keys));
    parse = parse_status;
  }

  unfoldable pub watch_all : List Bytes → Call D Status
  unfolding is_empty watch_request
  watch_all keys =
      if is_empty keys then returns (record { str = [] }) else sends (watch_request keys)

-- The three commands that change the flag.
pub data Operation : Type 0 where
  multi exec discard : Operation

-- What the overload with a callback does to the flag when it is called.
unfoldable pub on_issue : Operation → Bool → Bool
on_issue multi exec_flag = exec_flag
on_issue exec exec_flag = false
on_issue discard exec_flag = exec_flag

-- What its callback does when the reply is there; the argument is `reply.ok()`.
unfoldable pub on_reply : Operation → Bool → Bool → Bool
on_reply multi is_ok exec_flag = is_ok
on_reply exec is_ok exec_flag = false
on_reply discard is_ok exec_flag = false

-- The overload that waits: `command` throws where the reply is an error, so that the assignment behind
-- it is left out. The flag after the call.
unfoldable pub after_sync : Operation → Bool → Bool → Bool
after_sync multi is_ok exec_flag = if is_ok then true else exec_flag
after_sync exec is_ok exec_flag = false
after_sync discard is_ok exec_flag = false
