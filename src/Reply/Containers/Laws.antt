-- ===== src/Reply/Containers/Laws.antt =====
-- reply.h: the container templates: what they throw, and what they read.
pub mod Nested
pub mod Cursor
pub mod Scans
pub mod Tuples
use qbm_redis.Base.{
  ℕ, zero, suc, ◌≡◌, refl, sym, ◌∙◌, ap, Bool, true, false, List, [], ◌∷◌, ◌++◌, append-nil,
  append_assoc, Option, none, some, Bytes, codes, arith, Bool-cases, ◌==◌, inl, inr,
}
use qbm_redis.Base.Int.{ℤ}
use qbm_redis.Outcome.{
  Exception, proto_error, parse_error, Outcome, ok, throw, fault, IsCaught, ◌>>=◌,
}
use qbm_redis.Reply.{
  RedisReply, reply, Elements, null_array, array, Slots, no_slot, null_slot, slot, slot_list,
  reply_array, type_of, expected, element,
}
use qbm_redis.Reply.Published.{sub_reply}
use qbm_redis.Outcome.Caught.{>>=-IsCaught, if-IsCaught, throw_if-IsCaught}
use qbm_redis.Reply.Containers.{
  Parser, parse_optional, each_element, plain_loop, to_plain_array, parse_sequence, pair_parts,
  pair_slots, pair_body, parse_pair, nested_pair, each_pair, to_flat_array, is_flat_array,
  first_is_flat, insert_all, map_entries, parse_map,
}

-- A `parse` that gives a value or a `ProtoError` for every reply.
abbrev pub Caught : {A : Type 0} → Parser A → Type 0
Caught p = (r : RedisReply) → IsCaught (p r)

module _ {A : Type 0} (parse : Parser A) (safe : Caught parse) where
  pub parse_optional-Caught : Caught (parse_optional parse)
  unfolding parse_optional
  parse_optional-Caught r =
      if-IsCaught _ (ok none) _ tt (>>=-IsCaught (parse r) (λ a. ok (some a)) (safe r) (λ a. tt))

  each_element-IsCaught :
      (out : List A) (es : List (Option RedisReply)) → IsCaught (each_element parse out es)
  unfolding each_element
  each_element-IsCaught out [] = tt
  each_element-IsCaught out (none ∷ es) = tt
  each_element-IsCaught out (some r ∷ es) =
      >>=-IsCaught (parse r) (λ a. each_element parse (out ++ a ∷ []) es) (safe r)
        (λ a. each_element-IsCaught (out ++ a ∷ []) es)

  plain_loop-IsCaught : (o : Option (List (Option RedisReply))) → IsCaught (plain_loop parse o)
  unfolding plain_loop
  plain_loop-IsCaught none = tt
  plain_loop-IsCaught (some es) = each_element-IsCaught [] es

  pub to_plain_array-Caught : Caught (to_plain_array parse)
  unfolding to_plain_array expected
  to_plain_array-Caught r = throw_if-IsCaught _ _ _ tt (plain_loop-IsCaught (element r))

  pub parse_sequence-Caught : Caught (parse_sequence parse)
  unfolding parse_sequence expected
  parse_sequence-Caught r = ground (arith, to_plain_array-Caught r)

module _ {A B : Type 0} (first : Parser A) (second : Parser B) (safe1 : Caught first)
    (safe2 : Caught second) where
  pair_parts-IsCaught : (a b : Option RedisReply) → IsCaught (pair_parts first second a b)
  unfolding pair_parts
  pair_parts-IsCaught none b = tt
  pair_parts-IsCaught (some a) none = tt
  pair_parts-IsCaught (some a) (some b) =
      >>=-IsCaught (first a) _ (safe1 a) (λ x. >>=-IsCaught (second b) _ (safe2 b) (λ y. tt))

  pair_slots-IsCaught :
      (nested : Outcome (A × B)) (es : List (Option RedisReply))
      → (element : (r : RedisReply) → es ≡ some r ∷ [] → IsCaught nested)
      → IsCaught (pair_slots first second nested es)
  unfolding pair_slots sub_reply
  pair_slots-IsCaught nested [] c = tt
  pair_slots-IsCaught nested (none ∷ []) c = tt
  pair_slots-IsCaught nested (some r ∷ []) c = c r refl
  pair_slots-IsCaught nested (a ∷ b ∷ []) c = pair_parts-IsCaught a b
  pair_slots-IsCaught nested (a ∷ b ∷ c ∷ es) d = tt

  -- One array looks into the next, as deep as they are nested.
  pub parse_pair-Caught : Caught (parse_pair first second)
  unfolding parse_pair pair_body pair_slots sub_reply expected
  parse_pair-Caught (reply t n s (null_array k)) = ground arith
  parse_pair-Caught (reply t n s (array no_slot)) = ground arith
  parse_pair-Caught (reply t n s (array (null_slot no_slot))) = ground arith
  parse_pair-Caught (reply t n s (array (slot r no_slot))) =
      throw_if-IsCaught _ _ _ tt (parse_pair-Caught r)
  parse_pair-Caught (reply t n s (array (null_slot (null_slot ss)))) =
      throw_if-IsCaught _ _ _ tt
        (pair_slots-IsCaught fault (none ∷ none ∷ slot_list ss) (λ r e. cc))
  parse_pair-Caught (reply t n s (array (null_slot (slot b ss)))) =
      throw_if-IsCaught _ _ _ tt
        (pair_slots-IsCaught fault (none ∷ some b ∷ slot_list ss) (λ r e. cc))
  parse_pair-Caught (reply t n s (array (slot a (null_slot ss)))) =
      throw_if-IsCaught _ _ _ tt
        (pair_slots-IsCaught fault (some a ∷ none ∷ slot_list ss) (λ r e. cc))
  parse_pair-Caught (reply t n s (array (slot a (slot b ss)))) =
      throw_if-IsCaught _ _ _ tt
        (pair_slots-IsCaught fault (some a ∷ some b ∷ slot_list ss) (λ r e. cc))

  each_pair-IsCaught :
      (out : List (A × B)) (es : List (Option RedisReply))
      → IsCaught (each_pair first second out es)
  unfolding each_pair
  each_pair-IsCaught out [] = tt
  each_pair-IsCaught out (none ∷ es) = tt
  each_pair-IsCaught out (some k ∷ []) = tt
  each_pair-IsCaught out (some k ∷ none ∷ es) = tt
  each_pair-IsCaught out (some k ∷ some v ∷ es) =
      >>=-IsCaught (first k) _ (safe1 k)
        (λ x. >>=-IsCaught (second v) _ (safe2 v) (λ y. each_pair-IsCaught (out ++ (x, y) ∷ []) es))

  to_flat_array-Caught : Caught (to_flat_array first second)
  unfolding to_flat_array
  to_flat_array-Caught (reply t n s (null_array k)) = tt
  to_flat_array-Caught (reply t n s (array ss)) =
      throw_if-IsCaught _ _ _ tt (each_pair-IsCaught [] (slot_list ss))

  -- A map is read from any reply, flat or not, with a value or a `ProtoError`.
  pub parse_map-Caught : (same : A → A → Bool) → Caught (parse_map same first second)
  unfolding parse_map expected is_flat_array
  parse_map-Caught same r = elim (Bool-cases (type_of r == reply_array)) [
    | inl e ↦ rw e (
        >>=-IsCaught _ _
          (if-IsCaught (first_is_flat (element r)) _ _ (to_flat_array-Caught r)
            (plain_loop-IsCaught (parse_pair first second) parse_pair-Caught (element r)))
          (λ es. tt))
    | inr e ↦ rw e tt
  ]

-- The template `parse` functions pass on what the `parse` of their elements promises: on a reply of
-- any type and shape an optional value, a sequence, a pair and a map return a value or throw a
-- `ProtoError`, if the `parse` of each element does.
pub containers-Caught :
    {A B : Type 0} (first : Parser A) (second : Parser B) (same : A → A → Bool)
    → Caught first
    → Caught second
    → Caught (parse_optional first)
      × Caught (parse_sequence first)
      × Caught (parse_pair first second)
      × Caught (parse_map same first second)
containers-Caught first second same safe1 safe2 = (
  parse_optional-Caught first safe1,
  parse_sequence-Caught first safe1,
  parse_pair-Caught first second safe1 safe2,
  parse_map-Caught first second safe1 safe2 same,
)
