-- ===== src/Reply/Json.antt =====
-- reply.cpp, `parse<qb::json>`: any reply as a JSON value. `qb::json` is a type of the framework: the
-- model has its values, with the entries of an object in the order of their insertion, and takes
-- `qb::json::parse` as a parameter.
pub mod Laws
pub mod Numbers
pub mod Plain
pub mod RoundTrip
use qbm_redis.Base.{
  ℕ, zero, suc, ◌%◌, Bool, true, false, not, ◌&&◌, ◌||◌, List, [], ◌∷◌, Option, none, some, Bytes,
  codes, ltb, ◌==◌, is_empty, same_bytes, length, if◌then◌else◌,
}
use qbm_redis.Base.Int.{ℤ}
use qbm_redis.Decimal.{Numeric, value, invalid_argument, out_of_range, is_digit, stoll}
use qbm_redis.Floating.{Floating}
use qbm_redis.Outcome.{proto_error, Outcome, ok, throw, ◌>>=◌}
use qbm_redis.Reply.{
  RedisReply, reply, Elements, null_array, array, Slots, no_slot, null_slot, slot, slot_list,
  is_nil, is_integer, is_string, is_status, is_array,
}
use qbm_redis.Reply.Scalars.{parse_string}

mutual
  pub data Json (D : Type 0) : Type 0 where
    null : Json D
    boolean : Bool → Json D
    integer : ℤ → Json D
    float : D → Json D
    text : Bytes → Json D
    items : Items D → Json D
    object : Members D → Json D

  pub data Items (D : Type 0) : Type 0 where
    no_item : Items D
    item : Json D → Items D → Items D

  pub data Members (D : Type 0) : Type 0 where
    no_member : Members D
    member : Bytes → Json D → Members D → Members D

-- `qb::json::parse`, or `none` where it throws.
pub record JsonText (D : Type 0) : Type 0 where
  pub parse_text : Bytes → Option (Json D)

-- `obj[key] = value`
unfoldable pub set_member : {D : Type 0} → Members D → Bytes → Json D → Members D
unfolding same_bytes
set_member no_member key v = member key v no_member
set_member (member k w ms) key v =
    if same_bytes k key then member k v ms else member k w (set_member ms key v)

-- `str[str.size() - 1]` of a text that begins with `c`
unfoldable pub last_byte : ℕ → Bytes → ℕ
last_byte c [] = c
last_byte c (d ∷ s) = last_byte d s

-- A text of at least two bytes between braces or brackets.
unfoldable pub is_bracketed : Bytes → Bool
unfolding last_byte
is_bracketed [] = false
is_bracketed (c ∷ []) = false
is_bracketed (c ∷ d ∷ s) = c == b'{' && last_byte d s == b'}' || c == b'[' && last_byte d s == b']'

-- `find_first_not_of("-0123456789.") == npos`
unfoldable pub is_numeric : Bytes → Bool
is_numeric [] = true
is_numeric (c ∷ s) = (c == b'-' || c == b'.' || is_digit c) && is_numeric s

unfoldable pub has_dot : Bytes → Bool
has_dot [] = false
has_dot (c ∷ s) = c == b'.' || has_dot s

module _ {D : Type 0} ⦃F : Floating D⦄ where
  number_or : Bytes → Json D
  unfolding has_dot
  number_or str =
      if has_dot str
      then elim (F.stod str) [ value x ↦ float x | _ ↦ text str ]
      else elim (stoll str) [ value n ↦ integer n | _ ↦ text str ]

  -- The conversions behind the attempt to parse the text.
  unfoldable pub plain_json : Bytes → Json D
  unfolding same_bytes codes is_numeric number_or
  plain_json str =
      if same_bytes str (codes "true")
      then boolean true
      else if same_bytes str (codes "false")
      then boolean false
      else if is_numeric str
      then number_or str
      else text str

module _ {D : Type 0} ⦃F : Floating D⦄ ⦃J : JsonText D⦄ where
  unfoldable pub text_json : Bytes → Json D
  unfolding is_bracketed plain_json
  text_json str =
      if is_bracketed str
      then elim (J.parse_text str) [ some v ↦ v | none ↦ plain_json str ]
      else plain_json str

-- `all_keys_are_strings`
unfoldable pub all_keys_are_strings : Slots → Bool
unfolding is_string
all_keys_are_strings no_slot = true
all_keys_are_strings (null_slot ss) = false
all_keys_are_strings (slot k no_slot) = is_string k
all_keys_are_strings (slot k (null_slot ss)) = is_string k && all_keys_are_strings ss
all_keys_are_strings (slot k (slot v ss)) = is_string k && all_keys_are_strings ss

-- An even number of elements, with texts for keys.
unfoldable pub is_object : Slots → Bool
unfolding all_keys_are_strings
is_object ss = length (slot_list ss) % 2 == 0 && all_keys_are_strings ss

module _ {D : Type 0} ⦃F : Floating D⦄ ⦃J : JsonText D⦄ where
  -- The reply as its type asks; what its array comes to is the first argument.
  json_body : Outcome (Json D) → RedisReply → Outcome (Json D)
  unfolding is_nil is_integer is_string is_status is_array text_json
  json_body nested (reply t n s es) =
      if is_nil (reply t n s es)
      then ok null
      else if is_integer (reply t n s es)
      then ok (integer n)
      else if is_string (reply t n s es) || is_status (reply t n s es)
      then elim s [
        | none ↦ throw (proto_error (codes "Null string reply"))
        | some str ↦ ok (text_json str)
      ]
      else if is_array (reply t n s es)
      then nested
      else throw (proto_error (codes "Unsupported Redis reply type for JSON conversion"))

  unfoldable mutual
    unfolding json_body

    pub parse_json : RedisReply → Outcome (Json D)
    parse_json (reply t n s es) = let nested = array_json es in json_body nested (reply t n s es)

    pub array_json : Elements → Outcome (Json D)
    array_json (null_array n) = ok (items no_item)
    array_json (array no_slot) = ok (items no_item)
    array_json (array (null_slot ss)) = do vs ← item_loop (null_slot ss); ok (items vs)
    array_json (array (slot r ss)) = elim (is_object (slot r ss)) [
      | true ↦ do ms ← member_loop no_member (slot r ss); ok (object ms)
      | false ↦ do vs ← item_loop (slot r ss); ok (items vs)
    ]

    pub member_loop : Members D → Slots → Outcome (Members D)
    member_loop obj no_slot = ok obj
    member_loop obj (slot k (slot v ss)) = do
      key ← parse_string k
      w ← parse_json v
      member_loop (set_member obj key w) ss
    member_loop obj _ = throw (proto_error (codes "Null reply in object"))

    pub item_loop : Slots → Outcome (Items D)
    item_loop no_slot = ok no_item
    item_loop (null_slot ss) = do vs ← item_loop ss; ok (item null vs)
    item_loop (slot r ss) = do v ← parse_json r; vs ← item_loop ss; ok (item v vs)
