-- ===== src/Reply/Streams/Laws/Entries.antt =====
-- Stream entries as a server sends them: an array of the id and a flat array of fields and values.
use qbm_redis.Base.{
  ◌%◌, ◌≤◌, ◌≡◌, refl, sym, ◌∙◌, ap, false, List, [], ◌∷◌, ◌++◌, append-nil, append_assoc, Bytes,
  arith, All, same_bytes, length,
}
use qbm_redis.Base.Int.{ℤ, pos, negsuc, max_int64, InInt64}
use qbm_redis.Types.{StreamEntry}
use qbm_redis.Types.Ids.{id_text}
use qbm_redis.Outcome.{ok}
use qbm_redis.Reply.{RedisReply, Slots, no_slot, slot, slot_list}
use qbm_redis.Reply.Scalars.{parse_string}
use qbm_redis.Reply.Containers.{map_insert, insert_all, each_pair}
use qbm_redis.Reply.Containers.Laws.Nested.{array_reply}
use qbm_redis.Reply.Containers.Laws.Cursor.{string_reply}
use qbm_redis.Reply.Streams.{
  parse_stream_id, parse_fields, parse_stream_entry, entry_loop, parse_stream_entry_list,
}
use qbm_redis.Reply.Streams.Laws.{parse_stream_id-id_text}

abbrev pub Field : Type 0
Field = Bytes × Bytes

-- No entry of the map has this key, and no two entries have one key.
abbrev pub IsFresh : Field → List Field → Type 0
IsFresh e = All (λ j. same_bytes j.0 e.0 ≡ false)

abbrev pub DistinctKeys : List Field → Type 0
DistinctKeys [] = Unit
DistinctKeys (e ∷ es) = All (λ j. same_bytes e.0 j.0 ≡ false) es × DistinctKeys es

map_insert_fresh :
    (m : List Field) (e : Field) → IsFresh e m → map_insert same_bytes m e ≡ m ++ e ∷ []
unfolding map_insert
map_insert_fresh [] (k, v) h = refl
map_insert_fresh ((j, w) ∷ m) (k, v) (d, h) =
    rw d (ap (λ r. (j, w) ∷ r) (map_insert_fresh m (k, v) h))

IsFresh-more :
    (m : List Field) (e : Field) (es : List Field)
    → All (λ x. IsFresh x m) es
    → All (λ j. same_bytes e.0 j.0 ≡ false) es
    → All (λ x. IsFresh x (m ++ e ∷ [])) es
IsFresh-more m e [] h d = tt
IsFresh-more m e (x ∷ es) (hx, h) (dx, d) = (IsFresh-end m e x hx dx, IsFresh-more m e es h d)
  where
    IsFresh-end :
        (m : List Field) (e x : Field)
        → IsFresh x m
        → same_bytes e.0 x.0 ≡ false
        → IsFresh x (m ++ e ∷ [])
    IsFresh-end [] e x h d = (d, tt)
    IsFresh-end (j ∷ m) e x (hj, h) d = (hj, IsFresh-end m e x h d)

insert_all-append :
    (m es : List Field)
    → All (λ x. IsFresh x m) es
    → DistinctKeys es
    → insert_all same_bytes m es ≡ m ++ es
unfolding insert_all
insert_all-append m [] h d = sym (append-nil m)
insert_all-append m (e ∷ es) (he, h) (de, d) =
    rw (map_insert_fresh m e he)
      (insert_all-append (m ++ e ∷ []) es (IsFresh-more m e es h de) d ∙ append_assoc m (e ∷ []) es)

All-IsFresh : (es : List Field) → All (λ x. IsFresh x []) es
All-IsFresh [] = tt
All-IsFresh (e ∷ es) = (tt, All-IsFresh es)

-- The fields and values by turns.
unfoldable pub field_slots : List Field → Slots
field_slots [] = no_slot
field_slots ((k, v) ∷ es) = slot (string_reply k) (slot (string_reply v) (field_slots es))

fields_even : (es : List Field) → length (slot_list (field_slots es)) % 2 ≡ 0
unfolding field_slots
fields_even [] = refl
fields_even ((k, v) ∷ es) = omega (arith, fields_even es)

each_pair-fields :
    (es out : List Field)
    → each_pair parse_string parse_string out (slot_list (field_slots es)) ≡ ok (out ++ es)
unfolding each_pair field_slots parse_string
each_pair-fields [] out = rw append-nil
each_pair-fields ((k, v) ∷ es) out =
    each_pair-fields es (out ++ (k, v) ∷ []) ∙ ap ok (append_assoc out ((k, v) ∷ []) es)

-- A flat array of fields with distinct names is read as those fields.
pub parse_fields-field_slots :
    (es : List Field) → DistinctKeys es → parse_fields (array_reply (field_slots es)) ≡ ok es
unfolding parse_fields field_slots
parse_fields-field_slots [] d = refl
parse_fields-field_slots ((k, v) ∷ es) d =
    rw (fields_even ((k, v) ∷ es), each_pair-fields ((k, v) ∷ es) [])
      (ap ok (insert_all-append [] ((k, v) ∷ es) (All-IsFresh ((k, v) ∷ es)) d))

abbrev pub IsTimestamp : ℤ → Type 0
IsTimestamp (pos n) = n ≤ max_int64
IsTimestamp (negsuc n) = ⊥

-- An entry of a stream: its timestamp is not negative, its id fits, its fields have distinct names.
abbrev pub IsSendable : StreamEntry → Type 0
IsSendable e = IsTimestamp e.id.timestamp × InInt64 e.id.sequence × DistinctKeys e.fields

unfoldable pub entry_reply : StreamEntry → RedisReply
entry_reply e =
    array_reply
      (slot (string_reply (id_text e.id)) (slot (array_reply (field_slots e.fields)) no_slot))

unfoldable pub entry_slots : List StreamEntry → Slots
entry_slots [] = no_slot
entry_slots (e ∷ es) = slot (entry_reply e) (entry_slots es)

id_back :
    (t n : ℤ)
    → IsTimestamp t
    → InInt64 n
    → parse_stream_id (string_reply (id_text (record { timestamp = t; sequence = n })))
      ≡ ok (record { timestamp = t; sequence = n })
id_back (pos t) n ht hn = parse_stream_id-id_text t n ht hn
id_back (negsuc t) n ht hn = absurd ht

entry_back : (e : StreamEntry) → IsSendable e → parse_stream_entry (entry_reply e) ≡ ok e
unfolding parse_stream_entry entry_reply
entry_back e (ht, hn, d) =
    rw (id_back e.id.timestamp e.id.sequence ht hn, parse_fields-field_slots e.fields d)

loop_back :
    (es out : List StreamEntry)
    → All IsSendable es
    → entry_loop out (slot_list (entry_slots es)) ≡ ok (out ++ es)
unfolding entry_loop entry_slots
loop_back [] out h = rw append-nil
loop_back (e ∷ es) out (he, h) =
    rw (entry_back e he) (loop_back es (out ++ e ∷ []) h ∙ ap ok (append_assoc out (e ∷ []) es))

-- The reply to an XRANGE over entries with ids that fit a `long long` (timestamps not negative) and
-- fields of distinct names is read as exactly these entries, in order.
pub parse_stream_entry_list-entries :
    (es : List StreamEntry)
    → All IsSendable es
    → parse_stream_entry_list (array_reply (entry_slots es)) ≡ ok es
unfolding parse_stream_entry_list
parse_stream_entry_list-entries es h = loop_back es [] h
