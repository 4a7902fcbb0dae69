-- ===== src/Wire/Words.antt =====
-- reply.h, `to_redis_string`: the words that an argument stands for, as bulk strings.
use qbm_redis.Base.{
  Bool, true, ◌≡◌, refl, sym, ap, ◌∙◌, List, [], ◌∷◌, ◌++◌, append_assoc, append-nil, none, some,
  Bytes, codes, length,
}
use qbm_redis.Decimal.{show_nat, to_string}
use qbm_redis.Floating.{Floating}
use qbm_redis.Types.{
  JsonValue, json_null, json_boolean, json_number, json_string, json_array, json_object, JsonItems,
  no_item, item, JsonFields, no_field, field,
}
use qbm_redis.Types.Ids.{id_text}
use qbm_redis.Wire.{
  Arg, literal, c_str, str, number, floating, nullopt, engaged, tuple, pair, container, mapping,
  chars, geo_pos, stream_id, score, score_member, search_result, cluster_node, json_value, Args,
  end, arg, Entries, no_entry, entry, to_redis_string, put_tuple, put_each, put_entries,
}
use qbm_redis.Wire.Bulk.{
  crlf, put_bulk, put_all, bool_text, put_json, put_json_items, put_json_fields,
}

-- One bulk string of the protocol, and a row of them.
unfoldable pub bulk : Bytes → Bytes
bulk s = b'$' ∷ (show_nat (length s) ++ (crlf ++ (s ++ crlf)))

unfoldable pub bulks : List Bytes → Bytes
bulks [] = []
bulks (w ∷ ws) = bulk w ++ bulks ws

pub bulks-append : (ws vs : List Bytes) → bulks (ws ++ vs) ≡ bulks ws ++ bulks vs
unfolding bulks
bulks-append [] vs = refl
bulks-append (w ∷ ws) vs = simp (bulks-append ws vs, append_assoc)

module _ {D : Type 0} ⦃F : Floating D⦄ where
  unfoldable mutual
    pub json_words : JsonValue D → List Bytes
    json_words json_null = codes "null" ∷ []
    json_words (json_boolean b) = bool_text b ∷ []
    json_words (json_number x) = F.show x ∷ []
    json_words (json_string s) = s ∷ []
    json_words (json_array vs) = json_items_words vs
    json_words (json_object fs) = json_fields_words fs

    pub json_items_words : JsonItems D → List Bytes
    json_items_words no_item = []
    json_items_words (item v vs) = json_words v ++ json_items_words vs

    pub json_fields_words : JsonFields D → List Bytes
    json_fields_words no_field = []
    json_fields_words (field k v fs) = k ∷ (json_words v ++ json_fields_words fs)

  unfoldable mutual
    unfolding json_words

    pub words : Arg D → List Bytes
    words (literal s) = s ∷ []
    words (c_str none) = [] ∷ []
    words (c_str (some s)) = s ∷ []
    words (str s) = s ∷ []
    words (number n) = to_string n ∷ []
    words (floating x) = F.show x ∷ []
    words nullopt = []
    words (engaged a) = words a
    words (tuple ts) = words_of ts
    words (pair a b) = words a ++ words b
    words (container ts) = words_of ts
    words (mapping es) = entries_words es
    words (chars s) = s ∷ []
    words (geo_pos c) = F.show c.longitude ∷ F.show c.latitude ∷ []
    words (stream_id id) = id_text id ∷ []
    words (score s) = F.show s.value ∷ []
    words (score_member s) = F.show s.score ∷ s.member ∷ []
    words (search_result r) = r.key ∷ (r.fields ++ r.values)
    words (cluster_node n) = n.id ∷ []
    words (json_value v) = json_words v

    pub words_of : Args D → List Bytes
    words_of end = []
    words_of (arg a ts) = words a ++ words_of ts

    pub entries_words : Entries D → List Bytes
    entries_words no_entry = []
    entries_words (entry k v es) = words k ++ (words v ++ entries_words es)

put_bulk-append : (p s : Bytes) → put_bulk p s ≡ p ++ bulk s
unfolding put_bulk bulk
put_bulk-append p s = refl

put_all-append : (p : Bytes) (ss : List Bytes) → put_all p ss ≡ p ++ bulks ss
unfolding put_all bulks
put_all-append p [] = sym (append-nil p)
put_all-append p (s ∷ ss) =
    put_all-append (put_bulk p s) ss ∙ rw put_bulk-append (append_assoc p (bulk s) (bulks ss))

put_one : (p s : Bytes) → put_bulk p s ≡ p ++ bulks (s ∷ [])
unfolding bulks
put_one p s = put_bulk-append p s ∙ simp append-nil

-- Writing some words and then others is writing both.
bulks_join : (p : Bytes) (ws vs : List Bytes) → (p ++ bulks ws) ++ bulks vs ≡ p ++ bulks (ws ++ vs)
bulks_join p ws vs = simp (append_assoc, bulks-append)

put_none : (p : Bytes) → p ≡ p ++ bulks []
unfolding bulks
put_none p = sym (append-nil p)

put_two : (p s t : Bytes) → put_bulk (put_bulk p s) t ≡ p ++ bulks (s ∷ t ∷ [])
put_two p s t = put_one _ t ∙ rw (put_one p s) (bulks_join p (s ∷ []) (t ∷ []))

put_result-words :
    (p k : Bytes) (fs vs : List Bytes)
    → put_all (put_all (put_bulk p k) fs) vs ≡ p ++ bulks (k ∷ (fs ++ vs))
put_result-words p k fs vs =
    put_all-append _ vs
    ∙ rw (put_all-append _ fs, put_one p k)
        (ap (λ q. q ++ bulks vs) (bulks_join p (k ∷ []) fs) ∙ bulks_join p (k ∷ fs) vs)

module _ {D : Type 0} ⦃F : Floating D⦄ where
  mutual
    unfolding put_json json_words

    put_json-words : (v : JsonValue D) (p : Bytes) → put_json v p ≡ p ++ bulks (json_words v)
    put_json-words json_null p = put_one p _
    put_json-words (json_boolean b) p = put_one p _
    put_json-words (json_number x) p = put_one p _
    put_json-words (json_string s) p = put_one p s
    put_json-words (json_array vs) p = put_json_items-words vs p
    put_json-words (json_object fs) p = put_json_fields-words fs p

    put_json_items-words :
        (vs : JsonItems D) (p : Bytes) → put_json_items vs p ≡ p ++ bulks (json_items_words vs)
    put_json_items-words no_item p = put_none p
    put_json_items-words (item v vs) p =
        put_json_items-words vs (put_json v p)
        ∙ rw (put_json-words v p) (bulks_join p (json_words v) (json_items_words vs))

    put_json_fields-words :
        (fs : JsonFields D) (p : Bytes) → put_json_fields fs p ≡ p ++ bulks (json_fields_words fs)
    put_json_fields-words no_field p = put_none p
    put_json_fields-words (field k v fs) p =
        put_json_fields-words fs (put_json v (put_bulk p k))
        ∙ rw (put_json-words v (put_bulk p k), put_one p k)
            (ap (λ q. q ++ bulks (json_fields_words fs)) (bulks_join p (k ∷ []) (json_words v))
              ∙ bulks_join p (k ∷ json_words v) (json_fields_words fs))

  mutual
    unfolding to_redis_string words

    -- Every overload returns true and adds the words of its argument to the pipe.
    pub to_redis_string-words :
        (a : Arg D) (p : Bytes) → to_redis_string a p ≡ (true, p ++ bulks (words a))
    to_redis_string-words (literal s) p = ap (λ q. (true, q)) (put_one p s)
    to_redis_string-words (c_str none) p = ap (λ q. (true, q)) (put_one p [])
    to_redis_string-words (c_str (some s)) p = ap (λ q. (true, q)) (put_one p s)
    to_redis_string-words (str s) p = ap (λ q. (true, q)) (put_one p s)
    to_redis_string-words (number n) p = ap (λ q. (true, q)) (put_one p _)
    to_redis_string-words (floating x) p = ap (λ q. (true, q)) (put_one p _)
    to_redis_string-words nullopt p = ap (λ q. (true, q)) (put_none p)
    to_redis_string-words (engaged a) p =
        ap (λ (r : Bool × Bytes). (true, r.1)) (to_redis_string-words a p)
    to_redis_string-words (tuple ts) p = put_tuple-words ts p
    to_redis_string-words (pair a b) p =
        ap (λ (r : Bool × Bytes). (true, r.1)) (to_redis_string-words b (to_redis_string a p).1)
        ∙ ap (λ q. (true, q)) (rw (to_redis_string-words a p) (bulks_join p (words a) (words b)))
    to_redis_string-words (container ts) p = ap (λ q. (true, q)) (put_each-words ts p)
    to_redis_string-words (mapping es) p = ap (λ q. (true, q)) (put_entries-words es p)
    to_redis_string-words (chars s) p = ap (λ q. (true, q)) (put_one p s)
    to_redis_string-words (geo_pos c) p = ap (λ q. (true, q)) (put_two p _ _)
    to_redis_string-words (stream_id id) p = ap (λ q. (true, q)) (put_one p _)
    to_redis_string-words (score s) p = ap (λ q. (true, q)) (put_one p _)
    to_redis_string-words (score_member s) p = ap (λ q. (true, q)) (put_two p _ _)
    to_redis_string-words (search_result r) p =
        ap (λ q. (true, q)) (put_result-words p r.key r.fields r.values)
    to_redis_string-words (cluster_node n) p = ap (λ q. (true, q)) (put_one p _)
    to_redis_string-words (json_value v) p = ap (λ q. (true, q)) (put_json-words v p)

    pub put_tuple-words :
        (ts : Args D) (p : Bytes) → put_tuple ts p ≡ (true, p ++ bulks (words_of ts))
    put_tuple-words end p = ap (λ q. (true, q)) (put_none p)
    put_tuple-words (arg a ts) p = rw (to_redis_string-words a p) (
        put_tuple-words ts (p ++ bulks (words a))
        ∙ ap (λ q. (true, q)) (bulks_join p (words a) (words_of ts)))

    put_each-words : (ts : Args D) (p : Bytes) → put_each ts p ≡ p ++ bulks (words_of ts)
    put_each-words end p = put_none p
    put_each-words (arg a ts) p =
        rw (to_redis_string-words a p)
          (put_each-words ts (p ++ bulks (words a)) ∙ bulks_join p (words a) (words_of ts))

    put_entries-words :
        (es : Entries D) (p : Bytes) → put_entries es p ≡ p ++ bulks (entries_words es)
    put_entries-words no_entry p = put_none p
    put_entries-words (entry k v es) p =
        rw (to_redis_string-words k p, to_redis_string-words v (p ++ bulks (words k)))
          (put_entries-words es ((p ++ bulks (words k)) ++ bulks (words v))
            ∙ ap (λ q. q ++ bulks (entries_words es)) (bulks_join p (words k) (words v))
            ∙ bulks_join p (words k ++ words v) (entries_words es)
            ∙ ap (λ ws. p ++ bulks ws) (append_assoc (words k) (words v) (entries_words es)))
