-- ===== src/Reply/Memory/Numbers.antt =====
-- reply.cpp, `parse<memory_info>`: the numbers of the fields, over and beyond the range of a `size_t`.
use qbm_redis.Base.{ℕ, ◌-◌, ◌^◌, ◌==◌, leb, Bytes, codes, if◌then◌else◌}
use qbm_redis.Decimal.{value}
use qbm_redis.Reply.{RedisReply, slot, no_slot}
use qbm_redis.Reply.Containers.Laws.Nested.{array_reply}
use qbm_redis.Reply.Containers.Laws.Cursor.{string_reply}
use qbm_redis.Reply.Memory.{max_uint64, stoull}

-- What a `size_t` can hold of a number, and of a number with a minus in front, which wraps around; where
-- the number is too great, 0.
abbrev pub held : ℕ → ℕ
held n = if leb n max_uint64 then n else 0

abbrev pub wrapped : ℕ → ℕ
wrapped n = if leb n max_uint64 then (if n == 0 then 0 else 2 ^ 64 - n) else 0

-- What `get_size_t` makes of the text of a field.
field_of : Bytes → ℕ
unfolding stoull
field_of s = elim (stoull s) [ value n ↦ n | _ ↦ 0 ]

-- A reply with two fields.
abbrev pub fields_reply : Bytes → Bytes → RedisReply
fields_reply s t = array_reply (
    slot (string_reply (codes "used_memory")) (
      slot (string_reply s)
        (slot (string_reply (codes "connected_slaves")) (slot (string_reply t) no_slot))))
