-- ===== src/Commands.antt =====
-- What a method of a command class asks its client for: the name of a command, its arguments, and the
-- `parse` of its reply; or a result without a command, where the method returns early.
pub mod Arguments
pub mod Lists
pub mod Strings
pub mod Hashes
pub mod Sets
pub mod Scanner
pub mod Transaction
pub mod SortedSets
pub mod Keys
pub mod Values
pub mod Streams
pub mod Admin
pub mod Server
pub mod All
pub mod Subscriptions
use qbm_redis.Base.{Bool, Bytes, if◌then◌else◌}
use qbm_redis.Wire.{Arg, str, Args, end, arg}
use qbm_redis.Outcome.{Outcome}
use qbm_redis.Reply.{RedisReply}

-- `command<T>(name, args...)`
pub record Request (D T : Type 0) : Type 0 where
  pub name : Bytes
  pub args : Args D
  pub parse : RedisReply → Outcome T

pub data Call (D T : Type 0) : Type 0 where
  sends : Request D T → Call D T
  returns : T → Call D T

-- `if (refused) return default; return command<T>(...)`
abbrev pub unless : {D T : Type 0} → Bool → T → Request D T → Call D T
unless refused default r = if refused then returns default else sends r

-- The argument pack of `put_in_pipe`.
abbrev pub pack : {D T : Type 0} → Request D T → Args D
pack r = arg (str r.name) r.args

-- A request with any type of result, its argument pack and its `parse`.
pub record AnyRequest (D : Type 0) : Type 1 where
  pub Result : Type 0
  pub request : Request D Result

abbrev pub any : {D T : Type 0} → Request D T → AnyRequest D
any {T = T} r = record { Result = T; request = r }

abbrev pub packed_request : {D : Type 0} → AnyRequest D → Args D
packed_request a = pack a.request

abbrev pub parse_request : {D : Type 0} → (a : AnyRequest D) → RedisReply → Outcome a.Result
parse_request a = a.request.parse

module _ {D : Type 0} where
  abbrev pub args_1 : Arg D → Args D
  args_1 a = arg a end

  abbrev pub args_2 : Arg D → Arg D → Args D
  args_2 a b = arg a (arg b end)

  abbrev pub args_3 : Arg D → Arg D → Arg D → Args D
  args_3 a b c = arg a (arg b (arg c end))

  abbrev pub args_4 : Arg D → Arg D → Arg D → Arg D → Args D
  args_4 a b c d = arg a (arg b (arg c (arg d end)))

  abbrev pub args_5 : Arg D → Arg D → Arg D → Arg D → Arg D → Args D
  args_5 a b c d e = arg a (arg b (arg c (arg d (arg e end))))
