-- ===== src/Reply/Containers/Laws/Nested.antt =====
-- reply.h: two shapes of the same data: a flat array and an array of pairs.
use qbm_redis.Base.{
  ◌%◌, ◌≡◌, refl, Bool, true, false, List, [], ◌∷◌, ◌++◌, none, some, arith, length,
}
use qbm_redis.Base.Int.{pos}
use qbm_redis.Outcome.{Outcome, ok, throw, fault}
use qbm_redis.Reply.{
  RedisReply, reply, array, Slots, no_slot, slot, slot_list, reply_array, is_array,
}
use qbm_redis.Reply.Published.{sub_reply}
use qbm_redis.Reply.Containers.{
  Parser, each_element, plain_loop, to_plain_array, pair_parts, pair_slots, pair_body, parse_pair,
  each_pair, to_flat_array, is_flat_array, first_is_flat, map_entries, parse_map,
}

-- An array reply.
abbrev pub array_reply : Slots → RedisReply
array_reply ss = reply reply_array (pos 0) none (array ss)

-- Key and value replies by turns, and as arrays of two.
unfoldable pub flat_slots : List (RedisReply × RedisReply) → Slots
flat_slots [] = no_slot
flat_slots ((k, v) ∷ es) = slot k (slot v (flat_slots es))

unfoldable pub pair_slot_row : List (RedisReply × RedisReply) → Slots
pair_slot_row [] = no_slot
pair_slot_row ((k, v) ∷ es) = slot (array_reply (slot k (slot v no_slot))) (pair_slot_row es)

-- The first key is no array, by which the code tells the two shapes apart.
abbrev pub FlatKey : List (RedisReply × RedisReply) → Type 0
FlatKey [] = Unit
FlatKey ((k, v) ∷ es) = is_array k ≡ false

flat_is_even : (es : List (RedisReply × RedisReply)) → length (slot_list (flat_slots es)) % 2 ≡ 0
unfolding flat_slots
flat_is_even [] = refl
flat_is_even ((k, v) ∷ es) = omega (arith, flat_is_even es)

flat_first :
    (k v : RedisReply) (es : List (RedisReply × RedisReply))
    → is_array k ≡ false
    → first_is_flat (some (slot_list (flat_slots ((k, v) ∷ es)))) ≡ true
unfolding first_is_flat flat_slots
flat_first k v es f = rw f

row_first :
    (k v : RedisReply) (es : List (RedisReply × RedisReply))
    → first_is_flat (some (slot_list (pair_slot_row ((k, v) ∷ es)))) ≡ false
unfolding first_is_flat pair_slot_row
row_first k v es = refl

module _ {A B : Type 0} (first : Parser A) (second : Parser B) where
  row_step :
      (k v : RedisReply) (es : List (RedisReply × RedisReply)) (out : List (A × B)) (a : Outcome A)
      (b : Outcome B)
      → first k ≡ a
      → second v ≡ b
      → ((more : List (A × B))
          → each_pair first second more (slot_list (flat_slots es))
            ≡ each_element (parse_pair first second) more (slot_list (pair_slot_row es)))
      → each_pair first second out (slot_list (flat_slots ((k, v) ∷ es)))
        ≡ each_element (parse_pair first second) out (slot_list (pair_slot_row ((k, v) ∷ es)))
  unfolding each_pair each_element flat_slots pair_slot_row sub_reply parse_pair pair_body
      pair_slots pair_parts
  row_step k v es out (ok a) (ok b) p q ih = rw (p, q) (ih (out ++ (a, b) ∷ []))
  row_step k v es out (ok a) (throw e) p q ih = rw (p, q)
  row_step k v es out (ok a) fault p q ih = rw (p, q)
  row_step k v es out (throw e) b p q ih = rw p
  row_step k v es out fault b p q ih = rw p

  each_pair-row :
      (es : List (RedisReply × RedisReply)) (out : List (A × B))
      → each_pair first second out (slot_list (flat_slots es))
        ≡ each_element (parse_pair first second) out (slot_list (pair_slot_row es))
  each_pair-row [] out = unfold each_pair each_element flat_slots pair_slot_row in refl
  each_pair-row ((k, v) ∷ es) out =
      row_step k v es out (first k) (second v) refl refl (λ more. each_pair-row es more)

  map_entries-row :
      (same : A → A → Bool) (es : List (RedisReply × RedisReply))
      → FlatKey es
      → map_entries same first second (array_reply (flat_slots es))
        ≡ map_entries same first second (array_reply (pair_slot_row es))
  unfolding map_entries is_flat_array to_flat_array to_plain_array plain_loop
  map_entries-row same [] f = unfold flat_slots pair_slot_row in refl
  map_entries-row same ((k, v) ∷ es) f =
      rw (flat_first k v es f, row_first k v es, flat_is_even ((k, v) ∷ es))
        (each_pair-row ((k, v) ∷ es) [])

  -- A map that arrives as a flat array of keys and values is the map that arrives as an array of pairs,
  -- or the same exception, if the first key is no array.
  pub parse_map-shape :
      (same : A → A → Bool) (es : List (RedisReply × RedisReply))
      → FlatKey es
      → parse_map same first second (array_reply (flat_slots es))
        ≡ parse_map same first second (array_reply (pair_slot_row es))
  unfolding parse_map
  parse_map-shape same es f = rw (map_entries-row same es f)
