-- ===== src/Tests/Json.antt =====
-- The theorems on JSON values, on bounds and on ids at concrete inputs.
use qbm_redis.Base.{same_bytes, ◌≡◌, refl, ◌∷◌, ◌++◌, codes, arith}
use qbm_redis.Base.Int.{ℤ, pos}
use qbm_redis.Decimal.{to_string, stoll}
use qbm_redis.Types.{StreamId}
use qbm_redis.Outcome.{ok, IsCaught}
use qbm_redis.Reply.Scalars.{
  parse_string_view, parse_string, parse_long_long, parse_double, parse_bool, parse_status,
  parse_vector_char, parse_milliseconds, parse_seconds,
}
use qbm_redis.Reply.Containers.Laws.Cursor.{string_reply}
use qbm_redis.Reply.Records.{
  parse_geo_pos, parse_score, parse_score_member, parse_score_members, parse_string_doubles,
  parse_search_result, parse_pipeline_result,
}
use qbm_redis.Reply.Streams.{parse_stream_id, parse_stream_entry, parse_stream_entry_list}
use qbm_redis.Reply.Cluster.{parse_cluster_node}
use qbm_redis.Reply.Memory.{parse_memory_info}
use qbm_redis.Reply.Totality.{replies-IsCaught}
use qbm_redis.Reply.Json.{
  Json, null, integer, text, items, object, no_item, item, no_member, member, is_bracketed,
  last_byte, is_numeric, has_dot, all_keys_are_strings, is_object, parse_json,
}
use qbm_redis.Reply.Json.Plain.{sent_as, item_slots, has_key, add_last, IsPlain, Apart}
use qbm_redis.Reply.Json.RoundTrip.{parse_json-sent_as}
use qbm_redis.Reply.Json.Numbers.{parse_json-dashes}
use qbm_redis.Commands.Streams.{lenient_id}
use qbm_redis.Commands.Streams.Ids.{xadd-agrees}
use qbm_redis.Tests.{integers, no_texts, nil_reply}

-- {"name": "x", "ids": [7, null, "-x"]}
abbrev value : Json ℤ
value = object (
    member (codes "name") (text (codes "x")) (
      member (codes "ids")
        (items (item (integer (pos 7)) (item null (item (text (codes "-x")) no_item)))) no_member))

value-IsPlain : IsPlain value
unfolding Apart has_key add_last is_bracketed last_byte is_numeric same_bytes codes is_object
    all_keys_are_strings item_slots sent_as
value-IsPlain = (
  (refl, (refl, tt)),
  (refl, refl, refl, refl),
  ((refl, tt, (tt, ((refl, refl, refl, refl), tt))), tt),
)

parse_json-sent_as_example : parse_json (sent_as value) ≡ ok value
parse_json-sent_as_example = parse_json-sent_as value value-IsPlain

parse_json-dashes_example :
    parse_json {D = ℤ} (string_reply (to_string (pos 2024) ++ b'-' ∷ codes "01-15"))
    ≡ ok (integer (pos 2024))
unfolding is_numeric codes has_dot
parse_json-dashes_example = parse_json-dashes ℤ (pos 2024) (codes "01-15") (omega arith) refl refl

replies-IsCaught_example :
    IsCaught (parse_string_view nil_reply)
    × IsCaught (parse_string nil_reply)
    × IsCaught (parse_long_long nil_reply)
    × IsCaught (parse_double {D = ℤ} nil_reply)
    × IsCaught (parse_bool nil_reply)
    × IsCaught (parse_status nil_reply)
    × IsCaught (parse_vector_char nil_reply)
    × IsCaught (parse_milliseconds nil_reply)
    × IsCaught (parse_seconds nil_reply)
    × IsCaught (parse_geo_pos {D = ℤ} nil_reply)
    × IsCaught (parse_score {D = ℤ} nil_reply)
    × IsCaught (parse_score_member {D = ℤ} nil_reply)
    × IsCaught (parse_score_members {D = ℤ} nil_reply)
    × IsCaught (parse_string_doubles {D = ℤ} nil_reply)
    × IsCaught (parse_search_result nil_reply)
    × IsCaught (parse_pipeline_result nil_reply)
    × IsCaught (parse_cluster_node nil_reply)
    × IsCaught (parse_memory_info nil_reply)
    × IsCaught (parse_stream_id nil_reply)
    × IsCaught (parse_stream_entry nil_reply)
    × IsCaught (parse_stream_entry_list nil_reply)
    × IsCaught (parse_json {D = ℤ} nil_reply)
replies-IsCaught_example = replies-IsCaught ℤ nil_reply

abbrev new_id : StreamId
new_id = record { timestamp = pos 15; sequence = pos 3 }

xadd-agrees_example : lenient_id (codes "15-3") ≡ new_id
unfolding parse_stream_id codes stoll
xadd-agrees_example = xadd-agrees (codes "15-3") new_id refl
