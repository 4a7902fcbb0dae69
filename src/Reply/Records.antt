-- ===== src/Reply/Records.antt =====
-- reply.cpp: replies turned into the structures of types.h that are not streams.
pub mod Laws
use qbm_redis.Base.{
  ◌%◌, Bool, true, false, not, ◌&&◌, List, [], ◌∷◌, ◌++◌, Option, none, some, String, Bytes, codes,
  ◌==◌, if◌then◌else◌,
}
use qbm_redis.Floating.{Floating}
use qbm_redis.Types.{GeoPos, Score, ScoreMember, SearchResult}
use qbm_redis.Outcome.{proto_error, Outcome, ok, throw, ◌>>=◌, ◌>>◌, throw_if}
use qbm_redis.Reply.{
  RedisReply, elements, element, is_array, is_integer, is_string, is_error, expected,
}
use qbm_redis.Reply.Scalars.{parse_string, parse_double}

-- The two elements of an array, behind the tests of its size and of its two pointers.
two_parts : String → String → Option (List (Option RedisReply)) → Outcome (RedisReply × RedisReply)
two_parts wrong_size null_part (some (some a ∷ some b ∷ [])) = ok (a, b)
two_parts wrong_size null_part (some (a ∷ b ∷ [])) = throw (proto_error (codes null_part))
two_parts wrong_size null_part _ = throw (proto_error (codes wrong_size))

-- `if (!is_array(reply)) throw …`, then the two parts
unfoldable pub array_of_two : String → String → RedisReply → Outcome (RedisReply × RedisReply)
unfolding is_array two_parts
array_of_two wrong_size null_part r = do
  throw_if (not (is_array r)) (expected "ARRAY" r)
  two_parts wrong_size null_part (element r)

module _ {D : Type 0} ⦃F : Floating D⦄ where
  unfoldable pub parse_geo_pos : RedisReply → Outcome (GeoPos D)
  unfolding array_of_two
  parse_geo_pos r = do
    parts ← array_of_two "Invalid GEO position reply" "Null longitude or latitude reply" r
    x ← parse_double parts.0
    y ← parse_double parts.1
    ok (record { longitude = x; latitude = y })

  unfoldable pub parse_score : RedisReply → Outcome (Score D)
  unfolding is_integer is_string
  parse_score r = do
    throw_if (not (is_integer r) && not (is_string r)) (expected "INTEGER or STRING" r)
    x ← parse_double r
    ok (record { value = x })

  -- The score is read before the member.
  unfoldable pub parse_score_member : RedisReply → Outcome (ScoreMember D)
  unfolding array_of_two
  parse_score_member r = do
    parts ←
        array_of_two "Invalid score-member reply, expect array with 2 elements"
          "Null score or member reply" r
    x ← parse_double parts.1
    m ← parse_string parts.0
    ok (record { score = x; member = m })

  -- The loop of `parse<std::vector<score_member>>`: each round parses a copy of the reply whose
  -- array is two elements of this one.
  member_pairs : List (ScoreMember D) → List (Option RedisReply) → Outcome (List (ScoreMember D))
  member_pairs out (some m ∷ some s ∷ es) = do
    x ← parse_double s
    name ← parse_string m
    member_pairs (out ++ record { score = x; member = name } ∷ []) es
  member_pairs out [] = ok out
  member_pairs out _ = throw (proto_error (codes "Null score or member reply"))

  unfoldable pub parse_score_members : RedisReply → Outcome (List (ScoreMember D))
  unfolding is_array member_pairs
  parse_score_members r = do
    throw_if (not (is_array r)) (expected "ARRAY" r)
    elim (element r) [
      | none ↦ throw (proto_error (codes "Null array reply"))
      | some es ↦
          throw_if (not (elements r % 2 == 0))
            (proto_error (codes "Invalid array length for string-double pairs"))
          >> member_pairs [] es
    ]

  -- The loop of `parse<std::vector<std::pair<std::string, double>>>`.
  double_pairs : List (Bytes × D) → List (Option RedisReply) → Outcome (List (Bytes × D))
  double_pairs out [] = ok out
  double_pairs out (e ∷ []) =
      throw (proto_error (codes "Invalid array length for string-double pairs"))
  double_pairs out (some m ∷ some s ∷ es) = do
    name ← parse_string m
    x ← parse_double s
    double_pairs (out ++ (name, x) ∷ []) es
  double_pairs out (a ∷ b ∷ es) = throw (proto_error (codes "Null array element"))

  unfoldable pub parse_string_doubles : RedisReply → Outcome (List (Bytes × D))
  unfolding is_array double_pairs
  parse_string_doubles r = do
    throw_if (not (is_array r)) (expected "ARRAY" r)
    elim (element r) [
      | none ↦ throw (proto_error (codes "Null array reply"))
      | some es ↦ double_pairs [] es
    ]

-- The loop of `parse<search_result>`: a last element without a partner is left out.
search_fields : SearchResult → List (Option RedisReply) → Outcome SearchResult
search_fields result (some f ∷ some v ∷ es) = do
  name ← parse_string f
  text ← parse_string v
  search_fields
      (record result { fields = result.fields ++ name ∷ []; values = result.values ++ text ∷ [] })
      es
search_fields result [] = ok result
search_fields result (e ∷ []) = ok result
search_fields result (a ∷ b ∷ es) =
    throw (proto_error (codes "Null field or value reply in search result"))

abbrev no_result : SearchResult
no_result = record { key = []; fields = []; values = [] }

search_parts : Option (List (Option RedisReply)) → Outcome SearchResult
unfolding search_fields
search_parts none = ok no_result
search_parts (some []) = ok no_result
search_parts (some (none ∷ es)) = throw (proto_error (codes "Null key reply in search result"))
search_parts (some (some k ∷ es)) = do
  key ← parse_string k
  search_fields (record no_result { key = key }) es

unfoldable pub parse_search_result : RedisReply → Outcome SearchResult
unfolding is_array search_parts
parse_search_result r = do
  throw_if (not (is_array r)) (expected "ARRAY" r)
  search_parts (element r)

-- `pipeline_result`: the replies of a pipeline, and whether none of them is missing or an error.
pub record PipelineResult : Type 0 where
  pub replies : List RedisReply
  pub all_succeeded : Bool

pipeline_replies : PipelineResult → List (Option RedisReply) → PipelineResult
unfolding is_error
pipeline_replies result [] = result
pipeline_replies result (none ∷ es) = pipeline_replies (record result { all_succeeded = false }) es
pipeline_replies result (some r ∷ es) =
    pipeline_replies
      (record {
        replies = result.replies ++ r ∷ [];
        all_succeeded = if is_error r then false else result.all_succeeded;
      })
      es

unfoldable pub parse_pipeline_result : RedisReply → Outcome PipelineResult
unfolding is_array pipeline_replies
parse_pipeline_result r = do
  throw_if (not (is_array r)) (expected "ARRAY" r)
  elim (element r) [
    | none ↦ ok (record { replies = []; all_succeeded = true })
    | some es ↦ ok (pipeline_replies (record { replies = []; all_succeeded = true }) es)
  ]
