-- ===== src/Commands/SortedSets.antt =====
-- sorted_set_commands.h: the sorted set commands. `x_request` is the command that the method `x` asks
-- for; where the overload with a callback asks for another one, that is `x_func_request`.
pub mod Members
pub mod Ranges
pub mod Syntax
pub mod Requests
pub mod Replies
use qbm_redis.Base.{◌≡◌, Bool, [], Option, none, some, Bytes, if◌then◌else◌}
use qbm_redis.Base.Int.{ℤ, pos, ltb_ℤ}
use qbm_redis.Floating.{Floating}
use qbm_redis.Types.{UpdateType, always, exist, not_exist, LimitOptions}
use qbm_redis.Interval.{update_type_text}
use qbm_redis.Reply.Scalars.{parse_string, parse_double}
use qbm_redis.Reply.Containers.{Parser, last_component, component, parse_tuple}
use qbm_redis.Outcome.{Outcome, IsCaught}
use qbm_redis.Reply.{RedisReply}
use qbm_redis.Reply.Containers.Laws.{Caught}
use qbm_redis.Reply.Containers.Laws.Tuples.{
  RowCaught, last_component-Caught, component-Caught, parse_tuple-Caught,
}
use qbm_redis.Reply.Scalars.Laws.{parse_string-IsCaught, parse_double-IsCaught}

-- `std::optional<std::string> opt_up; if (type != UpdateType::ALWAYS) opt_up = std::to_string(type);`
unfoldable pub update_opt : UpdateType → Option Bytes
unfolding update_type_text
update_opt always = none
update_opt exist = some (update_type_text exist)
update_opt not_exist = some (update_type_text not_exist)

-- `opts.offset >= 0 ? w : ""`
unfoldable pub from_offset : LimitOptions → Bytes → Bytes
unfolding ltb_ℤ
from_offset opts w = if ltb_ℤ opts.offset (pos 0) then [] else w

module _ {D : Type 0} ⦃F : Floating D⦄ where
  -- `parse<std::tuple<std::string, std::string, double>>`
  unfoldable pub parse_popped : RedisReply → Outcome (Bytes × (Bytes × D))
  unfolding parse_tuple component last_component
  parse_popped =
      parse_tuple 3 (component parse_string (component parse_string (last_component parse_double)))

module _ (D : Type 0) ⦃F : Floating D⦄ where
  pub parse_popped-IsCaught : (r : RedisReply) → IsCaught (parse_popped {D = D} r)
  unfolding parse_popped
  parse_popped-IsCaught = parse_tuple-Caught 3 _ (
      component-Caught parse_string parse_string-IsCaught 2 _ (
        component-Caught parse_string parse_string-IsCaught 1 _
          (last_component-Caught (parse_double {D = D}) (parse_double-IsCaught D))))
