-- ===== src/Commands/Server.antt =====
-- server_commands.h: the server commands. `x_request` is the command that the method `x` asks for;
-- the lists of arguments that the methods build come first, and what they make of a result.
pub mod Clients
pub mod Config
pub mod Diagnosis
pub mod Persistence
pub mod Syntax
pub mod Requests
pub mod Replies
pub mod Unblock
use qbm_redis.Base.{
  ◌≡◌, refl, Bool, true, false, not, List, [], ◌∷◌, ◌++◌, Option, none, some, Bytes, codes,
  is_empty, same_bytes, if◌then◌else◌,
}
use qbm_redis.Base.Int.{ℤ, pos, ltb_ℤ, eqb_ℤ}
use qbm_redis.Decimal.{to_string, Numeric, value, stoll}
use qbm_redis.Reply.Memory.{map_assign}
use qbm_redis.Commands.Arguments.{push_if}

-- `args` of CLIENT KILL, of CLIENT UNBLOCK and of MEMORY USAGE
unfoldable pub kill_args : Bytes → ℤ → Bytes → Bool → List Bytes
unfolding push_if is_empty eqb_ℤ codes
kill_args addr id type skipme = push_if skipme (codes "SKIPME" ∷ codes "yes" ∷ []) (
    push_if (not (is_empty type)) (codes "TYPE" ∷ type ∷ []) (
      push_if (not (eqb_ℤ id (pos 0))) (codes "ID" ∷ to_string id ∷ [])
        (push_if (not (is_empty addr)) (codes "ADDR" ∷ addr ∷ []) [])))

unfoldable pub unblock_args : ℤ → Bool → List Bytes
unfolding push_if codes
unblock_args client_id error =
    push_if error (codes "ERROR" ∷ []) (codes "UNBLOCK" ∷ to_string client_id ∷ [])

unfoldable pub usage_args : ℤ → List Bytes
unfolding push_if ltb_ℤ codes
usage_args samples = push_if (ltb_ℤ (pos 0) samples) (codes "SAMPLES" ∷ to_string samples ∷ []) []

-- `enabled ? "ON" : "OFF"`
unfoldable pub on_off : Bool → Bytes
unfolding codes
on_off enabled = if enabled then codes "ON" else codes "OFF"

-- `param` of INFO
unfoldable pub section_option : Bytes → Option Bytes
section_option [] = none
section_option (c ∷ s) = some (c ∷ s)

-- The pairs that config_get makes of the texts: a last one without a partner is left out.
unfoldable pub pairs_of : List Bytes → List (Bytes × Bytes)
pairs_of (a ∷ b ∷ ss) = (a, b) ∷ pairs_of ss
pairs_of _ = []

-- The map that command_info makes of the texts of one command: the last value of a key stays.
unfoldable pub info_map : List (Bytes × Bytes) → List Bytes → List (Bytes × Bytes)
unfolding map_assign
info_map cmd_info (k ∷ v ∷ ss) = info_map (map_assign cmd_info k v) ss
info_map cmd_info _ = cmd_info

-- The pair that time makes of two texts, or `none` where `std::stoll` throws.
time_parts : Numeric ℤ → Numeric ℤ → Option (ℤ × ℤ)
time_parts (value s) (value u) = some (s, u)
time_parts _ _ = none

unfoldable pub time_of : List Bytes → Option (ℤ × ℤ)
unfolding time_parts
time_of (a ∷ b ∷ []) = time_parts (stoll a) (stoll b)
time_of _ = some (pos 0, pos 0)
