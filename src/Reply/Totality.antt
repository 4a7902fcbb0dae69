-- ===== src/Reply/Totality.antt =====
-- reply.cpp: what the `parse` functions throw.
use qbm_redis.Floating.{Floating}
use qbm_redis.Outcome.{IsCaught}
use qbm_redis.Outcome.Caught.{IsSafe-IsCaught}
use qbm_redis.Reply.{RedisReply}
use qbm_redis.Reply.Scalars.{
  parse_string_view, parse_string, parse_long_long, parse_double, parse_bool, parse_status,
  parse_vector_char, parse_milliseconds, parse_seconds,
}
use qbm_redis.Reply.Scalars.Laws.{
  parse_string_view-IsCaught, parse_string-IsCaught, parse_long_long-IsCaught,
  parse_double-IsCaught, parse_bool-IsCaught, parse_status-IsCaught, parse_vector_char-IsCaught,
  parse_milliseconds-IsCaught,
}
use qbm_redis.Reply.Records.{
  parse_geo_pos, parse_score, parse_score_member, parse_score_members, parse_string_doubles,
  parse_search_result, parse_pipeline_result,
}
use qbm_redis.Reply.Records.Laws.{
  parse_geo_pos-IsCaught, parse_score-IsCaught, parse_score_member-IsCaught,
  parse_score_members-IsCaught, parse_string_doubles-IsCaught, parse_search_result-IsCaught,
  parse_pipeline_result-IsCaught,
}
use qbm_redis.Reply.Streams.{parse_stream_id, parse_stream_entry, parse_stream_entry_list}
use qbm_redis.Reply.Streams.Bounds.{
  IdFits, parse_stream_id-IsSafe, parse_stream_entry-IsCaught, parse_stream_entry_list-IsCaught,
}
use qbm_redis.Reply.Cluster.{parse_cluster_node}
use qbm_redis.Reply.Cluster.Bounds.{parse_cluster_node-IsCaught}
use qbm_redis.Reply.Memory.{parse_memory_info}
use qbm_redis.Reply.Memory.Laws.{parse_memory_info-IsCaught}
use qbm_redis.Reply.Json.{JsonText, parse_json}
use qbm_redis.Reply.Json.Laws.{parse_json-IsCaught}

-- The `parse` of each scalar, of the durations, of the structures and the streams but for those named
-- here, and of JSON values, on a reply of any type and shape, returns a value or throws a `ProtoError`.
-- Left out are message, pmessage, subscription and map_stream_entry_list, which read through a null
-- pointer on some replies.
pub replies-IsCaught :
    (D : Type 0) ⦃F : Floating D⦄ ⦃J : JsonText D⦄ (r : RedisReply)
    → IsCaught (parse_string_view r)
      × IsCaught (parse_string r)
      × IsCaught (parse_long_long r)
      × IsCaught (parse_double {D = D} r)
      × IsCaught (parse_bool r)
      × IsCaught (parse_status r)
      × IsCaught (parse_vector_char r)
      × IsCaught (parse_milliseconds r)
      × IsCaught (parse_seconds r)
      × IsCaught (parse_geo_pos {D = D} r)
      × IsCaught (parse_score {D = D} r)
      × IsCaught (parse_score_member {D = D} r)
      × IsCaught (parse_score_members {D = D} r)
      × IsCaught (parse_string_doubles {D = D} r)
      × IsCaught (parse_search_result r)
      × IsCaught (parse_pipeline_result r)
      × IsCaught (parse_cluster_node r)
      × IsCaught (parse_memory_info r)
      × IsCaught (parse_stream_id r)
      × IsCaught (parse_stream_entry r)
      × IsCaught (parse_stream_entry_list r)
      × IsCaught (parse_json {D = D} r)
unfolding parse_milliseconds parse_seconds
replies-IsCaught D r = (
  parse_string_view-IsCaught r,
  parse_string-IsCaught r,
  parse_long_long-IsCaught r,
  parse_double-IsCaught D r,
  parse_bool-IsCaught r,
  parse_status-IsCaught r,
  parse_vector_char-IsCaught r,
  parse_milliseconds-IsCaught r,
  parse_milliseconds-IsCaught r,
  parse_geo_pos-IsCaught D r,
  parse_score-IsCaught D r,
  parse_score_member-IsCaught D r,
  parse_score_members-IsCaught D r,
  parse_string_doubles-IsCaught D r,
  parse_search_result-IsCaught r,
  parse_pipeline_result-IsCaught r,
  parse_cluster_node-IsCaught r,
  parse_memory_info-IsCaught r,
  IsSafe-IsCaught IdFits (parse_stream_id r) (parse_stream_id-IsSafe r),
  parse_stream_entry-IsCaught r,
  parse_stream_entry_list-IsCaught r,
  parse_json-IsCaught D r,
)
