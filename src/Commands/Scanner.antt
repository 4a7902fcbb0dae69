-- ===== src/Commands/Scanner.antt =====
-- hash_commands.h: the class `multi_hvals`, which sends one HVALS for each key and calls its callback
-- with what it gathered.
pub mod Laws
pub mod Keyed
use qbm_redis.Base.{
  ℕ, Bool, true, false, not, ◌&&◌, List, [], ◌∷◌, ◌++◌, Option, none, some, Bytes, codes, ◌==◌,
  is_empty,
}
use qbm_redis.Base.Int.{ℤ, pos}
use qbm_redis.Types.{Scan}
use qbm_redis.Wire.{Arg, literal, str, number, Args, end, arg}
use qbm_redis.Handler.{Reply}

-- What the callback is given: `ok()` and the items; the error text stays empty.
pub record Gathered : Type 0 where
  pub is_ok : Bool
  pub items : List Bytes

-- `_reply.ok() &= reply.ok()`, and the values behind those gathered so far
unfoldable pub gather : Reply (List Bytes) → Gathered → Gathered
gather reply g = record { is_ok = g.is_ok && reply.is_ok; items = g.items ++ reply.result }

-- The callback of one HVALS; `is_last` is fixed when the command is sent. The first component is what
-- the callback of the user is given, if it is called.
unfoldable pub hvals_step : Bool → Reply (List Bytes) → Gathered → Option Gathered × Gathered
unfolding gather
hvals_step is_last reply g = elim is_last [
  | true ↦ (some (gather reply g), gather reply g)
  | false ↦ (none, gather reply g)
]

-- All calls of the user's callback, when the replies to the HVALS of the keys arrive.
unfoldable pub hvals_replies : Gathered → List Bytes → List (Reply (List Bytes)) → List Gathered
unfolding hvals_step is_empty
hvals_replies g (key ∷ keys) (r ∷ rs) =
    let rest = hvals_replies (hvals_step (is_empty keys) r g).1 keys rs in
    elim (hvals_step (is_empty keys) r g).0 [ none ↦ rest | some h ↦ h ∷ rest ]
hvals_replies g keys rs = []

-- The constructor of `multi_hvals`, and then the replies.
unfoldable pub multi_hvals : List Bytes → List (Reply (List Bytes)) → List Gathered
unfolding hvals_replies
multi_hvals [] rs = record { is_ok = true; items = [] } ∷ []
multi_hvals (key ∷ keys) rs = hvals_replies (record { is_ok = true; items = [] }) (key ∷ keys) rs
