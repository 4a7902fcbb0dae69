-- ===== src/Wire/Counting.antt =====
-- reply.h: what `redis_count` counts against the number of the words of an argument.
use qbm_redis.Base.{ℕ, ◌*◌, ◌≡◌, refl, ◌++◌, none, some, length, length-append, arith}
use qbm_redis.Floating.{Floating}
use qbm_redis.Types.{
  JsonValue, json_null, json_boolean, json_number, json_string, json_array, json_object, JsonItems,
  no_item, item, JsonFields, no_field, field,
}
use qbm_redis.Wire.{
  Arg, literal, c_str, str, number, floating, nullopt, engaged, tuple, pair, container, mapping,
  chars, geo_pos, stream_id, score, score_member, search_result, cluster_node, json_value, Args,
  end, arg, Entries, no_entry, entry, redis_count, size, entries_size, total_count,
}
use qbm_redis.Wire.Bulk.{json_count, json_items_count, json_fields_count}
use qbm_redis.Wire.Words.{
  words, words_of, entries_words, json_words, json_items_words, json_fields_words,
}

-- What the counting by the first element needs: the elements of a container count alike, the
-- components of a tuple and of a pair count one each, and a `std::vector<char>` holds one byte.
module _ {D : Type 0} where
  abbrev mutual
    pub IsUniform : Arg D → Type 0
    IsUniform (engaged a) = IsUniform a
    IsUniform (tuple ts) = EachCounts 1 ts
    IsUniform (pair a b) = (redis_count a ≡ 1) × IsUniform a × (redis_count b ≡ 1) × IsUniform b
    IsUniform (container end) = Unit
    IsUniform (container (arg a ts)) = IsUniform a × EachCounts (redis_count a) ts
    IsUniform (mapping es) = EntriesCount es
    IsUniform (chars s) = length s ≡ 1
    IsUniform _ = Unit

    pub EachCounts : ℕ → Args D → Type 0
    EachCounts n end = Unit
    EachCounts n (arg a ts) = (redis_count a ≡ n) × IsUniform a × EachCounts n ts

    pub EntriesCount : Entries D → Type 0
    EntriesCount no_entry = Unit
    EntriesCount (entry k v es) =
        (redis_count k ≡ 1) × IsUniform k × (redis_count v ≡ 1) × IsUniform v × EntriesCount es

-- Every argument of a command is uniform.
module _ {D : Type 0} where
  abbrev pub AllUniform : Args D → Type 0
  AllUniform end = Unit
  AllUniform (arg a ts) = IsUniform a × AllUniform ts

module _ {D : Type 0} ⦃F : Floating D⦄ where
  mutual
    unfolding json_count json_words

    json_count-words : (v : JsonValue D) → json_count v ≡ length (json_words v)
    json_count-words json_null = refl
    json_count-words (json_boolean b) = refl
    json_count-words (json_number x) = refl
    json_count-words (json_string s) = refl
    json_count-words (json_array vs) = json_items_count-words vs
    json_count-words (json_object fs) = json_fields_count-words fs

    json_items_count-words : (vs : JsonItems D) → json_items_count vs ≡ length (json_items_words vs)
    json_items_count-words no_item = refl
    json_items_count-words (item v vs) = omega (
      arith,
      json_count-words v,
      json_items_count-words vs,
      length-append (json_words v) (json_items_words vs),
    )

    json_fields_count-words :
        (fs : JsonFields D) → json_fields_count fs ≡ length (json_fields_words fs)
    json_fields_count-words no_field = refl
    json_fields_count-words (field k v fs) = omega (
      arith,
      json_count-words v,
      json_fields_count-words fs,
      length-append (json_words v) (json_fields_words fs),
    )

  mutual
    unfolding redis_count words

    -- `redis_count` is the number of the words that `to_redis_string` writes.
    pub redis_count-words : (a : Arg D) → IsUniform a → redis_count a ≡ length (words a)
    redis_count-words (literal s) h = refl
    redis_count-words (c_str none) h = refl
    redis_count-words (c_str (some s)) h = refl
    redis_count-words (str s) h = refl
    redis_count-words (number n) h = refl
    redis_count-words (floating x) h = refl
    redis_count-words nullopt h = refl
    redis_count-words (engaged a) h = redis_count-words a h
    redis_count-words (tuple ts) h = omega (arith, EachCounts-words 1 ts h)
    redis_count-words (pair a b) (ca, ua, cb, ub) =
        omega
          (arith, redis_count-words a ua, redis_count-words b ub, length-append (words a) (words b))
    redis_count-words (container end) h = refl
    redis_count-words (container (arg a ts)) (ua, h) = grind (
      arith,
      redis_count-words a ua,
      EachCounts-words (redis_count a) ts h,
      length-append (words a) (words_of ts),
    )
    redis_count-words (mapping no_entry) h = refl
    redis_count-words (mapping (entry k v es)) h =
        omega (arith, EntriesCount-words (entry k v es) h)
    redis_count-words (chars s) h = ground arith
    redis_count-words (geo_pos c) h = refl
    redis_count-words (stream_id id) h = refl
    redis_count-words (score s) h = refl
    redis_count-words (score_member s) h = refl
    redis_count-words (search_result r) h = omega (arith, length-append r.fields r.values)
    redis_count-words (cluster_node n) h = refl
    redis_count-words (json_value v) h = json_count-words v

    EachCounts-words : (n : ℕ) (ts : Args D) → EachCounts n ts → n * size ts ≡ length (words_of ts)
    EachCounts-words n end h = omega arith
    EachCounts-words n (arg a ts) (ca, ua, h) = grind (
      arith,
      redis_count-words a ua,
      EachCounts-words n ts h,
      length-append (words a) (words_of ts),
    )

    EntriesCount-words :
        (es : Entries D) → EntriesCount es → 2 * entries_size es ≡ length (entries_words es)
    EntriesCount-words no_entry h = omega arith
    EntriesCount-words (entry k v es) (ck, uk, cv, uv, h) = omega (
      arith,
      redis_count-words k uk,
      redis_count-words v uv,
      EntriesCount-words es h,
      length-append (words k) (words v ++ entries_words es),
      length-append (words v) (entries_words es),
    )

  pub total_count-words : (ts : Args D) → AllUniform ts → total_count ts ≡ length (words_of ts)
  unfolding total_count words
  total_count-words end h = refl
  total_count-words (arg a ts) (ua, h) =
      omega (
        arith,
        redis_count-words a ua,
        total_count-words ts h,
        length-append (words a) (words_of ts),
      )
