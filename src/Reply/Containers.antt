-- ===== src/Reply/Containers.antt =====
-- reply.h, the reading half for templates: optional values, pairs, tuples, sequences, maps and SCAN.
-- The `parse` of an element type is an argument.
pub mod Laws
use qbm_redis.Base.{
  ℕ, zero, suc, ◌+◌, ◌-◌, ◌^◌, ◌%◌, Bool, true, false, not, ◌&&◌, ◌||◌, List, [], ◌∷◌, ◌++◌, Option,
  none, some, String, Bytes, codes, length, ◌==◌, if◌then◌else◌,
}
use qbm_redis.Base.Int.{ℤ, pos, negsuc}
use qbm_redis.Decimal.{show_nat, Numeric, value, invalid_argument, out_of_range, stoll}
use qbm_redis.Types.{Scan}
use qbm_redis.Outcome.{
  Exception, proto_error, Outcome, ok, throw, fault, ◌>>=◌, ◌>>◌, throw_if, assert,
}
use qbm_redis.Reply.{
  RedisReply, reply, Elements, null_array, array, Slots, no_slot, null_slot, slot, type_of,
  elements, element, is_nil, is_array, expected,
}
use qbm_redis.Reply.Scalars.{parse_string}
use qbm_redis.Reply.Published.{sub_reply}

abbrev pub Parser : Type 0 → Type 0
Parser A = RedisReply → Outcome A

module _ {A : Type 0} (parse : Parser A) where
  -- `std::optional<T>`
  unfoldable pub parse_optional : Parser (Option A)
  unfolding is_nil
  parse_optional r = if is_nil r then ok none else (do a ← parse r; ok (some a))

  -- The loop of `detail::to_array`, with the elements read so far.
  unfoldable pub each_element : List A → List (Option RedisReply) → Outcome (List A)
  unfolding sub_reply
  each_element out [] = ok out
  each_element out (e ∷ es) = do
    r ← sub_reply e "Null array element reply"
    a ← parse r
    each_element (out ++ a ∷ []) es

  -- `if (reply.element == nullptr) return;`, then the loop
  plain_loop : Option (List (Option RedisReply)) → Outcome (List A)
  unfolding each_element
  plain_loop none = ok []
  plain_loop (some es) = each_element [] es

  -- `detail::to_array(reply, output)`
  unfoldable pub to_plain_array : Parser (List A)
  unfolding is_array plain_loop
  to_plain_array r = do throw_if (not (is_array r)) (expected "ARRAY" r); plain_loop (element r)

  -- a container of single values, such as `std::vector<T>`
  unfoldable pub parse_sequence : Parser (List A)
  unfolding is_array to_plain_array
  parse_sequence r = do throw_if (not (is_array r)) (expected "ARRAY" r); to_plain_array r

module _ {A B : Type 0} (parse_first : Parser A) (parse_second : Parser B) where
  pair_parts : Option RedisReply → Option RedisReply → Outcome (A × B)
  pair_parts (some first) (some second) = do
    a ← parse_first first
    b ← parse_second second
    ok (a, b)
  pair_parts _ _ = throw (proto_error (codes "Null pair reply"))

  -- What the array holds decides: one element is looked through, two are the pair.
  pair_slots : Outcome (A × B) → List (Option RedisReply) → Outcome (A × B)
  unfolding sub_reply pair_parts
  pair_slots nested (e ∷ []) = do r ← sub_reply e "null nested PAIR reply"; nested
  pair_slots nested (a ∷ b ∷ []) = pair_parts a b
  pair_slots nested _ = throw (proto_error (codes "NOT key-value PAIR reply"))

  pair_body : Outcome (A × B) → RedisReply → Outcome (A × B)
  unfolding is_array pair_slots
  pair_body nested r = do
    throw_if (not (is_array r)) (expected "ARRAY" r)
    elim (element r) [
      | none ↦ throw (proto_error (codes "Null PAIR reply"))
      | some es ↦ pair_slots nested es
    ]

  -- `std::pair<T, U>`
  unfoldable mutual
    unfolding pair_body

    pub parse_pair : RedisReply → Outcome (A × B)
    parse_pair (reply t n s es) = let nested = nested_pair es in pair_body nested (reply t n s es)

    pub nested_pair : Elements → Outcome (A × B)
    nested_pair (array (slot r no_slot)) = parse_pair r
    nested_pair _ = fault

  -- The loop of `to_flat_array`: keys and values by turns.
  unfoldable pub each_pair : List (A × B) → List (Option RedisReply) → Outcome (List (A × B))
  each_pair out (some key ∷ some val ∷ es) = do
    k ← parse_first key
    v ← parse_second val
    each_pair (out ++ (k, v) ∷ []) es
  each_pair out [] = ok out
  each_pair out _ = throw (proto_error (codes "Null string array reply"))

  unfoldable pub to_flat_array : RedisReply → Outcome (List (A × B))
  unfolding each_pair
  to_flat_array r = elim (element r) [
    | none ↦ ok []
    | some es ↦
        throw_if (not (elements r % 2 == 0)) (proto_error (codes "Not string pair array reply"))
        >> each_pair [] es
  ]

first_is_flat : Option (List (Option RedisReply)) → Bool
unfolding is_array
first_is_flat (some (some r ∷ es)) = not (is_array r)
first_is_flat _ = false

-- `detail::is_flat_array`
unfoldable pub is_flat_array : RedisReply → Outcome Bool
unfolding is_array first_is_flat
is_flat_array r = do assert (is_array r); ok (first_is_flat (element r))

module _ {K V : Type 0} (same : K → K → Bool) where
  -- `insert` of a map: a key that is there keeps its value.
  unfoldable pub map_insert : List (K × V) → K × V → List (K × V)
  map_insert [] (k, v) = (k, v) ∷ []
  map_insert ((j, w) ∷ m) (k, v) = if same j k then (j, w) ∷ m else (j, w) ∷ map_insert m (k, v)

  unfoldable pub insert_all : List (K × V) → List (K × V) → List (K × V)
  unfolding map_insert
  insert_all m [] = m
  insert_all m (e ∷ es) = insert_all (map_insert m e) es

  module _ (parse_key : Parser K) (parse_value : Parser V) where
    -- `detail::to_array(std::true_type, reply, output)`: flat, or an array of pairs
    map_entries : RedisReply → Outcome (List (K × V))
    unfolding is_flat_array to_flat_array to_plain_array parse_pair
    map_entries r = do
      flat ← is_flat_array r
      if flat
          then to_flat_array parse_key parse_value r
          else to_plain_array (parse_pair parse_key parse_value) r

    -- `to_array(reply, output)` into a map, and `parse` of a map
    unfoldable pub parse_map : RedisReply → Outcome (List (K × V))
    unfolding is_array map_entries insert_all
    parse_map r = do
      throw_if (not (is_array r)) (expected "ARRAY" r)
      es ← map_entries r
      ok (insert_all [] es)

-- A row of the components of a `std::tuple`, from an index on (`parse_tuple`).
module _ {A : Type 0} (parse : Parser A) where
  unfoldable pub last_component : List (Option RedisReply) → Outcome A
  unfolding sub_reply
  last_component [] = fault
  last_component (e ∷ es) = do r ← sub_reply e "Null reply"; parse r

module _ {A B : Type 0} (parse : Parser A) (others : List (Option RedisReply) → Outcome B) where
  unfoldable pub component : List (Option RedisReply) → Outcome (A × B)
  unfolding last_component
  component [] = fault
  component (e ∷ es) = do a ← last_component parse (e ∷ es); b ← others es; ok (a, b)

-- `std::tuple<Args...>` of `size` components
module _ {A : Type 0} (size : ℕ) (components : List (Option RedisReply) → Outcome A) where
  unfoldable pub parse_tuple : RedisReply → Outcome A
  unfolding is_array
  parse_tuple r = do
    throw_if (not (is_array r)) (expected "ARRAY" r)
    throw_if (not (elements r == size)) (
        proto_error (
          codes "Expect tuple reply with "
          ++ (show_nat size
              ++ (codes " elements, but got " ++ (show_nat (elements r) ++ codes " elements")))))
    elim (element r) [
      | none ↦ throw (proto_error (codes "Null TUPLE reply"))
      | some es ↦ components es
    ]

-- The conversion of a `long long` to the `size_t` of `scan::cursor`.
unfoldable pub to_size_t : ℤ → ℕ
to_size_t (pos n) = n
to_size_t (negsuc n) = (2 ^ 64 - 1) - n

cursor_of : Bytes → Outcome ℤ
cursor_of s = elim (stoll s) [
  | value n ↦ ok n
  | _ ↦ throw (proto_error (codes "Invalid cursor reply: " ++ s))
]

scan_parts : Option (List (Option RedisReply)) → Outcome (RedisReply × RedisReply)
scan_parts (some (some c ∷ some d ∷ [])) = ok (c, d)
scan_parts (some (a ∷ b ∷ [])) = throw (proto_error (codes "Invalid cursor reply or data reply"))
scan_parts _ = throw (proto_error (codes "Invalid scan reply"))

-- `parse_scan_reply`, with the `to_array` of the output as an argument, and `parse<scan<Out>>`
module _ {Out : Type 0} (to_output : RedisReply → Outcome Out) where
  unfoldable pub parse_scan : RedisReply → Outcome (Scan Out)
  unfolding scan_parts cursor_of to_size_t
  parse_scan r = do
    parts ← scan_parts (element r)
    cursor_str ← parse_string parts.0
    new_cursor ← cursor_of cursor_str
    out ← to_output parts.1
    ok (record { cursor = to_size_t new_cursor; items = out })
