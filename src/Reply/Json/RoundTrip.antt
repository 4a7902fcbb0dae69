-- ===== src/Reply/Json/RoundTrip.antt =====
-- reply.cpp, `parse<qb::json>`: the values that come back from the replies that a server of RESP2 makes of
-- them.
use qbm_redis.Base.{◌≡◌, refl, sym, ap, ◌∙◌, Bool, true, false, Bytes}
use qbm_redis.Base.Int.{ℤ}
use qbm_redis.Floating.{Floating}
use qbm_redis.Outcome.{Outcome, ok, ◌>>=◌}
use qbm_redis.Reply.{RedisReply, Slots, no_slot, slot}
use qbm_redis.Reply.Scalars.{parse_string}
use qbm_redis.Reply.Containers.Laws.Nested.{array_reply}
use qbm_redis.Reply.Containers.Laws.Cursor.{string_reply}
use qbm_redis.Reply.Json.{
  Json, null, boolean, integer, float, text, items, object, Items, no_item, item, Members,
  no_member, member, JsonText, set_member, plain_json, text_json, is_object, json_body, parse_json,
  member_loop, item_loop,
}
use qbm_redis.Reply.Json.Plain.{
  sent_as, item_slots, member_slots, add_last, Apart, IsPlainText, IsPlain, ArePlain, HavePlain,
  join, join-add_last, join_none, set_member-add_last, Apart-first, Apart-rest,
  member_slots-is_object,
}

module _ {D : Type 0} ⦃F : Floating D⦄ ⦃J : JsonText D⦄ where
  text_json-plain : (s : Bytes) → IsPlainText s → text_json {D = D} s ≡ text s
  unfolding text_json plain_json
  text_json-plain s (a, b, c, d) = rw (a, b, c, d)

module _ (D : Type 0) ⦃F : Floating D⦄ ⦃J : JsonText D⦄ where
  null-sent : parse_json {D = D} (sent_as {D = D} null) ≡ ok null
  unfolding parse_json json_body sent_as
  null-sent = refl

  integer-sent : (n : ℤ) → parse_json {D = D} (sent_as {D = D} (integer n)) ≡ ok (integer n)
  unfolding parse_json json_body sent_as
  integer-sent n = refl

  text-sent :
      (s : Bytes) → IsPlainText s → parse_json {D = D} (sent_as {D = D} (text s)) ≡ ok (text s)
  unfolding parse_json json_body sent_as
  text-sent s h = ap (λ t. ok t) (text_json-plain s h)

  none-sent : parse_json {D = D} (sent_as {D = D} (items no_item)) ≡ ok (items no_item)
  unfolding parse_json json_body sent_as
  none-sent = refl

  no_item-sent : item_loop {D = D} no_slot ≡ ok no_item
  unfolding item_loop
  no_item-sent = refl

module _ {D : Type 0} ⦃F : Floating D⦄ ⦃J : JsonText D⦄ where
  pick_items : (b : Bool) (m n : Outcome (Json D)) → b ≡ false → elim b [ true ↦ m | false ↦ n ] ≡ n
  pick_items true m n h = cc
  pick_items false m n h = refl

  pick_members :
      (b : Bool) (m n : Outcome (Json D)) → b ≡ true → elim b [ true ↦ m | false ↦ n ] ≡ m
  pick_members true m n h = refl
  pick_members false m n h = cc

  array_items :
      (r : RedisReply) (ss : Slots) (vs : Items D)
      → is_object (slot r ss) ≡ false
      → item_loop (slot r ss) ≡ ok vs
      → parse_json (array_reply (slot r ss)) ≡ ok (items vs)
  unfolding parse_json json_body
  array_items r ss vs a p =
      pick_items (is_object (slot r ss)) _ _ a ∙ ap (λ m. m >>= λ us. ok (items us)) p

  array_members :
      (r : RedisReply) (ss : Slots) (ms : Members D)
      → is_object (slot r ss) ≡ true
      → member_loop no_member (slot r ss) ≡ ok ms
      → parse_json (array_reply (slot r ss)) ≡ ok (object ms)
  unfolding parse_json json_body
  array_members r ss ms a p =
      pick_members (is_object (slot r ss)) _ _ a ∙ ap (λ m. m >>= λ us. ok (object us)) p

  item_step :
      (r : RedisReply) (ss : Slots) (v : Json D) (vs : Items D)
      → parse_json r ≡ ok v
      → item_loop ss ≡ ok vs
      → item_loop (slot r ss) ≡ ok (item v vs)
  unfolding item_loop
  item_step r ss v vs p q = rw (p, q)

  member_step :
      (k : Bytes) (r : RedisReply) (ss : Slots) (obj ms : Members D) (v : Json D)
      → parse_json r ≡ ok v
      → member_loop (set_member obj k v) ss ≡ ok ms
      → member_loop obj (slot (string_reply k) (slot r ss)) ≡ ok ms
  unfolding member_loop parse_string
  member_step k r ss obj ms v p q = rw (p, q)

  no_member-sent : (obj : Members D) → member_loop obj no_slot ≡ ok obj
  unfolding member_loop
  no_member-sent obj = refl

  mutual
    unfolding sent_as item_slots member_slots join

    json-slots : (v : Json D) → IsPlain v → parse_json (sent_as v) ≡ ok v
    json-slots null h = null-sent D
    json-slots (boolean b) h = absurd h
    json-slots (integer n) h = integer-sent D n
    json-slots (float x) h = absurd h
    json-slots (text s) h = text-sent D s h
    json-slots (items no_item) h = none-sent D
    json-slots (items (item v vs)) (a, hv, hs) =
        array_items (sent_as v) (item_slots vs) (item v vs) a
          (item_step (sent_as v) (item_slots vs) v vs (json-slots v hv) (item_loop-slots vs hs))
    json-slots (object no_member) h = absurd h
    json-slots (object (member k v ms)) (a, hv, hs) =
        array_members (string_reply k) (slot (sent_as v) (member_slots ms)) (member k v ms)
          (member_slots-is_object (member k v ms))
          (member_loop-slots (member k v ms) no_member (hv, hs) a)

    item_loop-slots : (vs : Items D) → ArePlain vs → item_loop (item_slots vs) ≡ ok vs
    item_loop-slots no_item h = no_item-sent D
    item_loop-slots (item v vs) (hv, hs) =
        item_step (sent_as v) (item_slots vs) v vs (json-slots v hv) (item_loop-slots vs hs)

    member_loop-slots :
        (ms obj : Members D)
        → HavePlain ms
        → Apart obj ms
        → member_loop obj (member_slots ms) ≡ ok (join obj ms)
    member_loop-slots no_member obj h a = no_member-sent obj ∙ ap (λ m. ok m) (sym (join_none obj))
    member_loop-slots (member k v ms) obj (hv, hs) a =
        member_step k (sent_as v) (member_slots ms) obj (join obj (member k v ms)) v
          (json-slots v hv)
          (ap (λ o. member_loop o (member_slots ms))
              (set_member-add_last obj k v (Apart-first obj k v ms a))
            ∙ member_loop-slots ms (add_last obj k v) hs (Apart-rest obj k v ms a)
            ∙ ap (λ m. ok m) (join-add_last obj k v ms))

  -- A plain value comes back from the reply that a server of RESP2 makes of it, a map as a flat array of
  -- keys and values: its texts are not numbers, truth values or between braces or brackets, its objects
  -- have a member and no key twice, its arrays do not look like an object, and there are no truth values
  -- (RESP2 sends integers for them) and no floating point numbers.
  pub parse_json-sent_as : (v : Json D) → IsPlain v → parse_json (sent_as v) ≡ ok v
  parse_json-sent_as v h = json-slots v h
