-- ===== src/Types/Ids.antt =====
-- `stream_id`: its text and its order.
use qbm_redis.Base.{◌++◌, ◌∷◌, Bool, ◌&&◌, ◌||◌, not, Bytes}
use qbm_redis.Base.Int.{ltb_ℤ, eqb_ℤ}
use qbm_redis.Decimal.{to_string}
use qbm_redis.Types.{StreamId}

-- `stream_id::to_string`.
unfoldable pub id_text : StreamId → Bytes
id_text id = to_string id.timestamp ++ b'-' ∷ to_string id.sequence

unfoldable pub id_eq : StreamId → StreamId → Bool
unfolding eqb_ℤ
id_eq a b = eqb_ℤ a.timestamp b.timestamp && eqb_ℤ a.sequence b.sequence

unfoldable pub id_ne : StreamId → StreamId → Bool
unfolding id_eq
id_ne a b = not (id_eq a b)

unfoldable pub id_lt : StreamId → StreamId → Bool
unfolding ltb_ℤ eqb_ℤ
id_lt a b =
    ltb_ℤ a.timestamp b.timestamp || (eqb_ℤ a.timestamp b.timestamp && ltb_ℤ a.sequence b.sequence)
