-- ===== src/Reply/Json/Plain.antt =====
-- reply.cpp, `parse<qb::json>`: the replies that a server of the protocol RESP2 makes of values, and
-- the values that such replies tell apart. This is the documented protocol, and no code of this
-- repository.
use qbm_redis.Base.{
  ◌%◌, ◌≡◌, refl, ap, Bool, true, false, none, Bytes, codes, same_bytes, length, arith,
  if◌then◌else◌,
}
use qbm_redis.Base.Int.{pos}
use qbm_redis.Floating.{Floating}
use qbm_redis.Reply.{
  RedisReply, reply, null_array, Slots, no_slot, slot, slot_list, reply_integer, reply_nil,
}
use qbm_redis.Reply.Containers.Laws.Nested.{array_reply}
use qbm_redis.Reply.Containers.Laws.Cursor.{string_reply}
use qbm_redis.Reply.Json.{
  Json, null, boolean, integer, float, text, items, object, Items, no_item, item, Members,
  no_member, member, set_member, is_bracketed, is_numeric, all_keys_are_strings, is_object,
}

-- A text that is no number, no truth value and not between braces or brackets.
abbrev pub IsPlainText : Bytes → Type 0
IsPlainText s =
    (is_bracketed s ≡ false)
    × (same_bytes s (codes "true") ≡ false)
    × (same_bytes s (codes "false") ≡ false)
    × (is_numeric s ≡ false)

module _ {D : Type 0} ⦃F : Floating D⦄ where
  -- RESP2: null is the nil reply, a truth value the integer 1 or 0, a floating point number a text, a map
  -- the array of its keys and values by turns.
  unfoldable mutual
    pub sent_as : Json D → RedisReply
    sent_as null = reply reply_nil (pos 0) none (null_array 0)
    sent_as (boolean true) = reply reply_integer (pos 1) none (null_array 0)
    sent_as (boolean false) = reply reply_integer (pos 0) none (null_array 0)
    sent_as (integer n) = reply reply_integer n none (null_array 0)
    sent_as (float x) = string_reply (F.show x)
    sent_as (text s) = string_reply s
    sent_as (items vs) = array_reply (item_slots vs)
    sent_as (object ms) = array_reply (member_slots ms)

    pub item_slots : Items D → Slots
    item_slots no_item = no_slot
    item_slots (item v vs) = slot (sent_as v) (item_slots vs)

    pub member_slots : Members D → Slots
    member_slots no_member = no_slot
    member_slots (member k v ms) = slot (string_reply k) (slot (sent_as v) (member_slots ms))

  unfoldable pub has_key : Members D → Bytes → Bool
  unfolding same_bytes
  has_key no_member key = false
  has_key (member k v ms) key = if same_bytes k key then true else has_key ms key

  unfoldable pub add_last : Members D → Bytes → Json D → Members D
  add_last no_member key v = member key v no_member
  add_last (member k w ms) key v = member k w (add_last ms key v)

  -- No key of the second object is one of the first, or comes twice.
  unfoldable pub Apart : Members D → Members D → Type 0
  unfolding has_key add_last
  Apart obj no_member = Unit
  Apart obj (member k v ms) = (has_key obj k ≡ false) × Apart (add_last obj k v) ms

  -- Values with texts that are plain, with objects that have a member and no key twice, with arrays that
  -- do not look like an object, and without truth values and floating point numbers.
  abbrev mutual
    pub IsPlain : Json D → Type 0
    IsPlain null = Unit
    IsPlain (boolean b) = ⊥
    IsPlain (integer n) = Unit
    IsPlain (float x) = ⊥
    IsPlain (text s) = IsPlainText s
    IsPlain (items no_item) = Unit
    IsPlain (items (item v vs)) =
        (is_object (item_slots (item v vs)) ≡ false) × IsPlain v × ArePlain vs
    IsPlain (object no_member) = ⊥
    IsPlain (object (member k v ms)) = Apart no_member (member k v ms) × IsPlain v × HavePlain ms

    pub ArePlain : Items D → Type 0
    ArePlain no_item = Unit
    ArePlain (item v vs) = IsPlain v × ArePlain vs

    pub HavePlain : Members D → Type 0
    HavePlain no_member = Unit
    HavePlain (member k v ms) = IsPlain v × HavePlain ms

  unfoldable pub join : Members D → Members D → Members D
  join no_member ms = ms
  join (member k v obj) ms = member k v (join obj ms)

  pub join-add_last :
      (obj : Members D) (k : Bytes) (v : Json D) (ms : Members D)
      → join (add_last obj k v) ms ≡ join obj (member k v ms)
  unfolding join add_last
  join-add_last no_member k v ms = refl
  join-add_last (member j w obj) k v ms = ap (λ r. member j w r) (join-add_last obj k v ms)

  pub join_none : (obj : Members D) → join obj no_member ≡ obj
  unfolding join
  join_none no_member = refl
  join_none (member k v obj) = ap (λ r. member k v r) (join_none obj)

  set_under :
      (b : Bool) (j : Bytes) (w : Json D) (obj : Members D) (k : Bytes) (v : Json D)
      → (has_key obj k ≡ false → set_member obj k v ≡ add_last obj k v)
      → (if b then true else has_key obj k) ≡ false
      → (if b then member j v obj else member j w (set_member obj k v))
        ≡ member j w (add_last obj k v)
  set_under true j w obj k v ih h = cc
  set_under false j w obj k v ih h = ap (λ r. member j w r) (ih h)

  pub set_member-add_last :
      (obj : Members D) (k : Bytes) (v : Json D)
      → has_key obj k ≡ false
      → set_member obj k v ≡ add_last obj k v
  unfolding set_member has_key add_last
  set_member-add_last no_member k v h = refl
  set_member-add_last (member j w obj) k v h =
      set_under (same_bytes j k) j w obj k v (set_member-add_last obj k v) h

  pub Apart-first :
      (obj : Members D) (k : Bytes) (v : Json D) (ms : Members D)
      → Apart obj (member k v ms)
      → has_key obj k ≡ false
  unfolding Apart
  Apart-first obj k v ms a = a.0

  pub Apart-rest :
      (obj : Members D) (k : Bytes) (v : Json D) (ms : Members D)
      → Apart obj (member k v ms)
      → Apart (add_last obj k v) ms
  unfolding Apart
  Apart-rest obj k v ms a = a.1

  member_slots-even : (ms : Members D) → length (slot_list (member_slots ms)) % 2 ≡ 0
  unfolding member_slots
  member_slots-even no_member = refl
  member_slots-even (member k v ms) = omega (arith, member_slots-even ms)

  member_slots-keys : (ms : Members D) → all_keys_are_strings (member_slots ms) ≡ true
  unfolding member_slots all_keys_are_strings
  member_slots-keys no_member = refl
  member_slots-keys (member k v ms) = member_slots-keys ms

  pub member_slots-is_object : (ms : Members D) → is_object (member_slots ms) ≡ true
  unfolding is_object
  member_slots-is_object ms = rw (member_slots-even ms, member_slots-keys ms)
