-- ===== src/Reply/Records/Laws.antt =====
-- reply.cpp: what the `parse` functions of the structures throw.
use qbm_redis.Base.{arith, List, [], ◌∷◌, ◌++◌, Option, none, some, Bytes, String}
use qbm_redis.Floating.{Floating}
use qbm_redis.Types.{ScoreMember, SearchResult}
use qbm_redis.Outcome.{IsCaught}
use qbm_redis.Outcome.Caught.{>>=-IsCaught, throw_if-IsCaught}
use qbm_redis.Reply.{RedisReply, reply, null_array, array, slot_list, element, expected}
use qbm_redis.Reply.Scalars.{parse_string, parse_double}
use qbm_redis.Reply.Scalars.Laws.{parse_string-IsCaught, parse_double-IsCaught}
use qbm_redis.Reply.Records.{
  two_parts, array_of_two, parse_geo_pos, parse_score, parse_score_member, member_pairs,
  parse_score_members, double_pairs, parse_string_doubles, search_fields, search_parts,
  parse_search_result, parse_pipeline_result,
}

two_parts-IsCaught :
    (a b : String) (es : Option (List (Option RedisReply))) → IsCaught (two_parts a b es)
unfolding two_parts
two_parts-IsCaught a b none = tt
two_parts-IsCaught a b (some []) = tt
two_parts-IsCaught a b (some (none ∷ [])) = tt
two_parts-IsCaught a b (some (some x ∷ [])) = tt
two_parts-IsCaught a b (some (none ∷ y ∷ [])) = tt
two_parts-IsCaught a b (some (some x ∷ none ∷ [])) = tt
two_parts-IsCaught a b (some (some x ∷ some y ∷ [])) = tt
two_parts-IsCaught a b (some (none ∷ y ∷ z ∷ es)) = tt
two_parts-IsCaught a b (some (some x ∷ none ∷ z ∷ es)) = tt
two_parts-IsCaught a b (some (some x ∷ some y ∷ z ∷ es)) = tt

pub array_of_two-IsCaught : (a b : String) (r : RedisReply) → IsCaught (array_of_two a b r)
unfolding array_of_two expected
array_of_two-IsCaught a b r = throw_if-IsCaught _ _ _ tt (two_parts-IsCaught a b (element r))

module _ (D : Type 0) ⦃F : Floating D⦄ where
  pub parse_geo_pos-IsCaught : (r : RedisReply) → IsCaught (parse_geo_pos {D = D} r)
  unfolding parse_geo_pos
  parse_geo_pos-IsCaught r = >>=-IsCaught (array_of_two _ _ r) _ (array_of_two-IsCaught _ _ r) (λ p.
      >>=-IsCaught (parse_double {D = D} p.0) _ (parse_double-IsCaught D p.0)
        (λ x. >>=-IsCaught (parse_double {D = D} p.1) _ (parse_double-IsCaught D p.1) (λ y. tt)))

  pub parse_score-IsCaught : (r : RedisReply) → IsCaught (parse_score {D = D} r)
  unfolding parse_score expected
  parse_score-IsCaught r =
      throw_if-IsCaught _ _ _ tt
        (>>=-IsCaught (parse_double {D = D} r) _ (parse_double-IsCaught D r) (λ x. tt))

  pub parse_score_member-IsCaught : (r : RedisReply) → IsCaught (parse_score_member {D = D} r)
  unfolding parse_score_member
  parse_score_member-IsCaught r =
      >>=-IsCaught (array_of_two _ _ r) _ (array_of_two-IsCaught _ _ r) (λ p.
        >>=-IsCaught (parse_double {D = D} p.1) _ (parse_double-IsCaught D p.1)
          (λ x. >>=-IsCaught (parse_string p.0) _ (parse_string-IsCaught p.0) (λ y. tt)))

  member_pairs-IsCaught :
      (out : List (ScoreMember D)) (es : List (Option RedisReply)) → IsCaught (member_pairs out es)
  unfolding member_pairs
  member_pairs-IsCaught out [] = tt
  member_pairs-IsCaught out (none ∷ es) = tt
  member_pairs-IsCaught out (some m ∷ []) = tt
  member_pairs-IsCaught out (some m ∷ none ∷ es) = tt
  member_pairs-IsCaught out (some m ∷ some s ∷ es) =
      >>=-IsCaught (parse_double {D = D} s) _ (parse_double-IsCaught D s) (λ x.
        >>=-IsCaught (parse_string m) _ (parse_string-IsCaught m)
          (λ n. member_pairs-IsCaught (out ++ record { score = x; member = n } ∷ []) es))

  pub parse_score_members-IsCaught : (r : RedisReply) → IsCaught (parse_score_members {D = D} r)
  unfolding parse_score_members expected
  parse_score_members-IsCaught (reply t n s (null_array k)) = ground arith
  parse_score_members-IsCaught (reply t n s (array ss)) =
      ground (arith, member_pairs-IsCaught [] (slot_list ss))

  double_pairs-IsCaught :
      (out : List (Bytes × D)) (es : List (Option RedisReply)) → IsCaught (double_pairs out es)
  unfolding double_pairs
  double_pairs-IsCaught out [] = tt
  double_pairs-IsCaught out (e ∷ []) = tt
  double_pairs-IsCaught out (none ∷ b ∷ es) = tt
  double_pairs-IsCaught out (some m ∷ none ∷ es) = tt
  double_pairs-IsCaught out (some m ∷ some s ∷ es) =
      >>=-IsCaught (parse_string m) _ (parse_string-IsCaught m) (λ n.
        >>=-IsCaught (parse_double {D = D} s) _ (parse_double-IsCaught D s)
          (λ x. double_pairs-IsCaught (out ++ (n, x) ∷ []) es))

  pub parse_string_doubles-IsCaught : (r : RedisReply) → IsCaught (parse_string_doubles {D = D} r)
  unfolding parse_string_doubles expected
  parse_string_doubles-IsCaught (reply t n s (null_array k)) = ground arith
  parse_string_doubles-IsCaught (reply t n s (array ss)) =
      ground (arith, double_pairs-IsCaught [] (slot_list ss))

search_fields-IsCaught :
    (result : SearchResult) (es : List (Option RedisReply)) → IsCaught (search_fields result es)
unfolding search_fields
search_fields-IsCaught result [] = tt
search_fields-IsCaught result (none ∷ []) = tt
search_fields-IsCaught result (some f ∷ []) = tt
search_fields-IsCaught result (none ∷ v ∷ es) = tt
search_fields-IsCaught result (some f ∷ none ∷ es) = tt
search_fields-IsCaught result (some f ∷ some v ∷ es) =
    >>=-IsCaught (parse_string f) _ (parse_string-IsCaught f) (λ name.
      >>=-IsCaught (parse_string v) _ (parse_string-IsCaught v)
        (λ text. search_fields-IsCaught _ es))

search_parts-IsCaught : (es : Option (List (Option RedisReply))) → IsCaught (search_parts es)
unfolding search_parts
search_parts-IsCaught none = tt
search_parts-IsCaught (some []) = tt
search_parts-IsCaught (some (none ∷ es)) = tt
search_parts-IsCaught (some (some k ∷ es)) =
    >>=-IsCaught (parse_string k) _ (parse_string-IsCaught k) (λ key. search_fields-IsCaught _ es)

pub parse_search_result-IsCaught : (r : RedisReply) → IsCaught (parse_search_result r)
unfolding parse_search_result expected
parse_search_result-IsCaught r = throw_if-IsCaught _ _ _ tt (search_parts-IsCaught (element r))

pub parse_pipeline_result-IsCaught : (r : RedisReply) → IsCaught (parse_pipeline_result r)
unfolding parse_pipeline_result expected
parse_pipeline_result-IsCaught (reply t n s (null_array k)) = ground arith
parse_pipeline_result-IsCaught (reply t n s (array ss)) = ground arith
