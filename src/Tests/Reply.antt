-- ===== src/Tests/Reply.antt =====
-- The theorems on the reading of replies at concrete inputs.
use qbm_redis.Base.{◌≡◌, refl, ◌++◌, List, [], ◌∷◌, Bytes, codes, arith, ◌^◌, same_bytes}
use qbm_redis.Base.Int.{pos, negsuc}
use qbm_redis.Decimal.{show_nat}
use qbm_redis.Types.{StreamId, StreamEntry}
use qbm_redis.Types.Ids.{id_text}
use qbm_redis.Outcome.{ok, throw, proto_error, ◌>>=◌}
use qbm_redis.Reply.{RedisReply, no_slot, is_array}
use qbm_redis.Reply.Scalars.{parse_string}
use qbm_redis.Reply.Scalars.Laws.{parse_string-IsCaught}
use qbm_redis.Reply.Containers.{parse_optional, parse_sequence, parse_pair, parse_map, parse_scan}
use qbm_redis.Reply.Containers.Laws.{Caught, containers-Caught}
use qbm_redis.Reply.Containers.Laws.Nested.{array_reply, flat_slots, pair_slot_row, parse_map-shape}
use qbm_redis.Reply.Containers.Laws.Cursor.{
  string_reply, scan_reply, parse_scan-cursor, parse_scan_large_cursor,
}
use qbm_redis.Reply.Streams.{parse_stream_id, parse_stream_entry_list}
use qbm_redis.Reply.Streams.Laws.{parse_stream_id_negative}
use qbm_redis.Reply.Streams.Laws.Entries.{entry_slots, parse_stream_entry_list-entries}
use qbm_redis.Types.{ClusterNode}
use qbm_redis.Reply.Cluster.{parse_cluster_node}
use qbm_redis.Reply.Cluster.Line.{IsNode, joined, node_line}
use qbm_redis.Reply.Cluster.Laws.{parse_cluster_node-line, parse_cluster_node_double_colon}
use qbm_redis.Tests.{integers}

abbrev two_fields : List (RedisReply × RedisReply)
two_fields =
    (string_reply (codes "a"), string_reply (codes "1"))
    ∷ (string_reply (codes "b"), string_reply (codes "2"))
    ∷ []

containers-Caught_example :
    Caught (parse_optional parse_string)
    × Caught (parse_sequence parse_string)
    × Caught (parse_pair parse_string parse_string)
    × Caught (parse_map same_bytes parse_string parse_string)
containers-Caught_example =
    containers-Caught parse_string parse_string same_bytes parse_string-IsCaught
      parse_string-IsCaught

parse_map-shape_example :
    parse_map same_bytes parse_string parse_string (array_reply (flat_slots two_fields))
    ≡ parse_map same_bytes parse_string parse_string (array_reply (pair_slot_row two_fields))
unfolding is_array
parse_map-shape_example = parse_map-shape parse_string parse_string same_bytes two_fields refl

parse_scan-cursor_example :
    parse_scan (parse_sequence parse_string) (scan_reply 17 (array_reply no_slot)) ≡ (
      parse_sequence parse_string (array_reply no_slot) >>= λ out.
      ok (record { cursor = 17; items = out }))
parse_scan-cursor_example =
    parse_scan-cursor (parse_sequence parse_string) 17 (array_reply no_slot) (omega arith)

parse_scan_large_cursor_example :
    parse_scan (parse_sequence parse_string) (scan_reply (2 ^ 63) (array_reply no_slot))
    ≡ throw (proto_error (codes "Invalid cursor reply: " ++ show_nat (2 ^ 63)))
parse_scan_large_cursor_example =
    parse_scan_large_cursor (parse_sequence parse_string) (2 ^ 63) (array_reply no_slot)
      (omega arith)

abbrev id : StreamId
id = record { timestamp = pos 12; sequence = pos 3 }

parse_stream_id_negative_example :
    parse_stream_id (string_reply (id_text (record { timestamp = negsuc 1; sequence = pos 3 })))
    ≡ throw (
        proto_error (
          codes "Invalid stream ID: "
          ++ id_text (record { timestamp = negsuc 1; sequence = pos 3 })))
parse_stream_id_negative_example = parse_stream_id_negative 1 (pos 3)

abbrev entries : List StreamEntry
entries =
    record { id = id; fields = (codes "a", codes "1") ∷ (codes "b", codes "2") ∷ [] }
    ∷ record { id = id; fields = [] }
    ∷ []

parse_stream_entry_list-entries_example :
    parse_stream_entry_list (array_reply (entry_slots entries)) ≡ ok entries
unfolding same_bytes codes
parse_stream_entry_list-entries_example =
    parse_stream_entry_list-entries entries
      ((omega arith, omega arith, ((refl, tt), (tt, tt))), ((omega arith, omega arith, tt), tt))

abbrev node : ClusterNode
node = record {
  id = codes "07c3";
  ip = codes "127.0.0.1";
  port = pos 7000;
  flags = codes "myself" ∷ codes "master" ∷ [];
  master = codes "-";
  ping_sent = pos 0;
  pong_received = pos 1426238317239;
  epoch = pos 2;
  link_state = codes "connected";
  slots = codes "0-5460" ∷ codes "5462" ∷ [];
}

node-IsNode : IsNode node 7000 17000
unfolding codes joined
node-IsNode = record {
  id_word = (λ p. cc, ground arith);
  ip_graph = ground arith;
  ip_colon = ground arith;
  ip_at = ground arith;
  port_value = refl;
  port_fits = omega arith;
  flags_word = (λ p. cc, ground arith);
  flags_there = λ p. cc;
  flags_comma = ground arith;
  master_word = (λ p. cc, ground arith);
  ping_fits = omega arith;
  pong_fits = omega arith;
  epoch_fits = omega arith;
  link_word = (λ p. cc, ground arith);
  slot_words = ((λ p. cc, ground arith), ((λ p. cc, ground arith), tt));
}

parse_cluster_node-line_example :
    parse_cluster_node (string_reply (node_line node 7000 17000)) ≡ ok node
parse_cluster_node-line_example = parse_cluster_node-line node 7000 17000 node-IsNode

parse_cluster_node_double_colon_example :
    (t : Bytes) × (parse_cluster_node (
        string_reply (
          codes "07c3"
          ++ b' ' ∷ ((codes "fe80" ++ b':' ∷ (b':' ∷ codes "1:7000")) ++ b' ' ∷ codes "master")))
      ≡ throw (proto_error (codes "Invalid port: " ++ b':' ∷ t)))
unfolding codes
parse_cluster_node_double_colon_example =
    parse_cluster_node_double_colon (codes "07c3") (codes "fe80") (codes "1:7000") (codes "master")
      (λ p. cc, ground arith) (ground arith) (ground arith) (ground arith) (ground arith)
