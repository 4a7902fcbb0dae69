-- ===== src/Reply/Memory.antt =====
-- reply.cpp, `parse<memory_info>`: fields by name, from an array of names and texts by turns.
pub mod Laws
pub mod Numbers
use qbm_redis.Base.{
  ℕ, zero, suc, ◌-◌, ◌^◌, Bool, true, false, not, List, [], ◌∷◌, Option, none, some, Bytes, codes,
  ◌==◌, leb, same_bytes, if◌then◌else◌, String,
}
use qbm_redis.Decimal.{
  Numeric, value, invalid_argument, out_of_range, is_digit, skip_space, digits_value,
}
use qbm_redis.Types.{MemoryInfo}
use qbm_redis.Outcome.{Outcome, ok, throw, ◌>>=◌, ◌>>◌, throw_if}
use qbm_redis.Reply.{RedisReply, element, is_array, expected}
use qbm_redis.Reply.Scalars.{parse_string}

-- `std::numeric_limits<unsigned long long>::max()`
abbrev pub max_uint64 : ℕ
max_uint64 = 2 ^ 64 - 1

-- The digits behind the sign of an unsigned number: a minus wraps the number around.
unsigned_digits : Bool → Bytes → Numeric ℕ
unfolding digits_value
unsigned_digits minus [] = invalid_argument
unsigned_digits minus (c ∷ s) =
    let n = digits_value 0 (c ∷ s) in
    if is_digit c
    then (if leb n max_uint64
        then value (if minus then (if n == 0 then 0 else 2 ^ 64 - n) else n)
        else out_of_range)
    else invalid_argument

unsigned_sign : Bytes → Numeric ℕ
unfolding unsigned_digits
unsigned_sign [] = invalid_argument
unsigned_sign (c ∷ s) =
    if c == b'-'
    then unsigned_digits true s
    else if c == b'+'
    then unsigned_digits false s
    else unsigned_digits false (c ∷ s)

-- `std::stoull`
unfoldable pub stoull : Bytes → Numeric ℕ
unfolding skip_space unsigned_sign
stoull s = unsigned_sign (skip_space s)

-- `info_map[key] = val`
unfoldable pub map_assign : List (Bytes × Bytes) → Bytes → Bytes → List (Bytes × Bytes)
unfolding same_bytes
map_assign [] key val = (key, val) ∷ []
map_assign ((k, v) ∷ m) key val =
    if same_bytes k key then (k, val) ∷ m else (k, v) ∷ map_assign m key val

-- The loop over the pairs: a null pointer skips its pair, and a last element without a partner is
-- left out.
info_loop : List (Bytes × Bytes) → List (Option RedisReply) → Outcome (List (Bytes × Bytes))
unfolding map_assign
info_loop info_map (some k ∷ some v ∷ es) = do
  key ← parse_string k
  val ← parse_string v
  info_loop (map_assign info_map key val) es
info_loop info_map (a ∷ b ∷ es) = info_loop info_map es
info_loop info_map _ = ok info_map

-- `find`
unfoldable pub map_find : Bytes → List (Bytes × Bytes) → Option Bytes
unfolding same_bytes
map_find key [] = none
map_find key ((k, v) ∷ m) = if same_bytes k key then some v else map_find key m

-- `get_size_t`
unfoldable pub get_size_t : List (Bytes × Bytes) → String → ℕ
unfolding map_find stoull codes
get_size_t info_map key = elim (map_find (codes key) info_map) [
  | none ↦ 0
  | some v ↦ elim (stoull v) [ value n ↦ n | _ ↦ 0 ]
]

unfoldable pub memory_info_of : List (Bytes × Bytes) → MemoryInfo
unfolding get_size_t
memory_info_of m = record {
  used_memory = get_size_t m "used_memory";
  used_memory_peak = get_size_t m "used_memory_peak";
  used_memory_lua = get_size_t m "used_memory_lua";
  used_memory_scripts = get_size_t m "used_memory_scripts";
  number_of_keys = get_size_t m "db0";
  number_of_expires = get_size_t m "expired_keys";
  number_of_connected_clients = get_size_t m "connected_clients";
  number_of_slaves = get_size_t m "connected_slaves";
  number_of_replicas = get_size_t m "connected_slaves";
  number_of_commands_processed = get_size_t m "total_commands_processed";
  total_connections_received = get_size_t m "total_connections_received";
  total_commands_processed = get_size_t m "total_commands_processed";
  instantaneous_ops_per_sec = get_size_t m "instantaneous_ops_per_sec";
  total_net_input_bytes = get_size_t m "total_net_input_bytes";
  total_net_output_bytes = get_size_t m "total_net_output_bytes";
  instantaneous_input_kbps = get_size_t m "instantaneous_input_kbps";
  instantaneous_output_kbps = get_size_t m "instantaneous_output_kbps";
}

abbrev pub no_info : MemoryInfo
no_info = record {
  used_memory = 0;
  used_memory_peak = 0;
  used_memory_lua = 0;
  used_memory_scripts = 0;
  number_of_keys = 0;
  number_of_expires = 0;
  number_of_connected_clients = 0;
  number_of_slaves = 0;
  number_of_replicas = 0;
  number_of_commands_processed = 0;
  total_connections_received = 0;
  total_commands_processed = 0;
  instantaneous_ops_per_sec = 0;
  total_net_input_bytes = 0;
  total_net_output_bytes = 0;
  instantaneous_input_kbps = 0;
  instantaneous_output_kbps = 0;
}

info_parts : Option (List (Option RedisReply)) → Outcome MemoryInfo
unfolding info_loop memory_info_of
info_parts none = ok no_info
info_parts (some []) = ok no_info
info_parts (some (e ∷ es)) = do info_map ← info_loop [] (e ∷ es); ok (memory_info_of info_map)

unfoldable pub parse_memory_info : RedisReply → Outcome MemoryInfo
unfolding is_array info_parts
parse_memory_info r = do throw_if (not (is_array r)) (expected "ARRAY" r); info_parts (element r)
