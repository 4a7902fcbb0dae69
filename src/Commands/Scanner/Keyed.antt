-- ===== src/Commands/Scanner/Keyed.antt =====
-- set_commands.h and sorted_set_commands.h: the classes `scanner`, which send SSCAN or ZSCAN for a
-- key again and again until the cursor is 0, and call their callback with what they gathered.
pub mod Laws
use qbm_redis.Base.{
  ◌%◌, ◌^◌, ◌-◌, ltb, if◌then◌else◌, ℕ, Bool, true, false, not, ◌&&◌, List, [], ◌∷◌, ◌++◌, Option,
  none, some, Bytes, same_bytes, ◌==◌,
}
use qbm_redis.Base.Int.{ℤ, pos, negsuc}
use qbm_redis.Floating.{Floating}
use qbm_redis.Types.{Scan}
use qbm_redis.Wire.{Args}
use qbm_redis.Handler.{Reply}
use qbm_redis.Reply.Containers.{insert_all}
use qbm_redis.Commands.{Call, sends, returns, pack}
use qbm_redis.Commands.Sets.Members.{sscan}
use qbm_redis.Commands.SortedSets.Members.{zscan}

-- Of `_reply` its `ok()` and its items.
pub record Progress (T : Type 0) : Type 0 where
  pub is_ok : Bool
  pub items : T

-- What the scanner does with a reply: it scans on from the cursor, or calls the callback and is deleted.
pub data Next (T : Type 0) : Type 0 where
  from_cursor : ℕ → Progress T → Next T
  done : Progress T → Next T

module _ {D T : Type 0} (insert : T → T → T) (ask : ℕ → Call D (Scan T)) where
  -- `_reply.ok() = reply.ok()`, and the items of the reply behind those gathered so far
  unfoldable pub add_reply : Reply (Scan T) → Progress T → Progress T
  add_reply reply p = record { is_ok = reply.is_ok; items = insert p.items reply.result.items }

  -- `operator()`
  unfoldable pub next_step : Reply (Scan T) → Progress T → Next T
  unfolding add_reply
  next_step reply p = elim (reply.is_ok && not (reply.result.cursor == 0)) [
    | true ↦ from_cursor reply.result.cursor (add_reply reply p)
    | false ↦ done (add_reply reply p)
  ]

  -- The commands that are sent from a cursor on while these replies arrive, and what the callback is
  -- given, with the replies that are left for others. Where the scan returns early, nothing is sent,
  -- and no reply comes.
  unfoldable pub keyed_run :
      ℕ
      → Progress T
      → List (Reply (Scan T))
      → List (Args D) × Option (Progress T × List (Reply (Scan T)))
  unfolding next_step
  keyed_run cursor p [] = elim (ask cursor) [
    | returns early ↦ ([], none)
    | sends q ↦ (pack q ∷ [], none)
  ]
  keyed_run cursor p (r ∷ rs) = elim (ask cursor) [
    | returns early ↦ ([], none)
    | sends q ↦ elim (next_step r p) [
      | from_cursor c p2 ↦ let (cs, o) = keyed_run c p2 rs in (pack q ∷ cs, o)
      | done p2 ↦ (pack q ∷ [], some (p2, rs))
    ]
  ]

-- The conversion of a `size_t` to a `long long`, as the cursor of a reply is passed on.
unfoldable pub to_int64 : ℕ → ℤ
to_int64 n =
    if ltb (n % 2 ^ 64) (2 ^ 63) then pos (n % 2 ^ 64) else negsuc (2 ^ 64 - 1 - n % 2 ^ 64)

module _ {D : Type 0} where
  -- `new scanner(derived(), key, pattern, func)` of the set commands
  unfoldable pub sscan_all :
      Bytes
      → Bytes
      → List (Reply (Scan (List Bytes)))
      → List (Args D) × Option (Progress (List Bytes) × List (Reply (Scan (List Bytes))))
  unfolding keyed_run to_int64
  sscan_all key pattern rs =
      keyed_run (λ a b. a ++ b) (λ cursor. sscan key (to_int64 cursor) pattern (pos 100)) 0
        (record { is_ok = false; items = [] }) rs

module _ {D : Type 0} ⦃F : Floating D⦄ where
  -- and of the sorted set commands, where a member that is there keeps its score.
  unfoldable pub zscan_all :
      Bytes
      → Bytes
      → List (Reply (Scan (List (Bytes × D))))
      → List (Args D)
        × Option (Progress (List (Bytes × D)) × List (Reply (Scan (List (Bytes × D)))))
  unfolding keyed_run insert_all to_int64
  zscan_all key pattern rs =
      keyed_run (insert_all same_bytes) (λ cursor. zscan key (to_int64 cursor) pattern (pos 100)) 0
        (record { is_ok = false; items = [] }) rs
