-- ===== src/Reply/Json/Laws.antt =====
-- reply.cpp, `parse<qb::json>`: what it throws, and the values that it gives back.
use qbm_redis.Base.{Bool, true, false, none, some, arith}
use qbm_redis.Floating.{Floating}
use qbm_redis.Outcome.{Outcome, IsCaught}
use qbm_redis.Outcome.Caught.{>>=-IsCaught}
use qbm_redis.Reply.{
  RedisReply, reply, Elements, null_array, array, Slots, no_slot, null_slot, slot,
}
use qbm_redis.Reply.Scalars.{parse_string}
use qbm_redis.Reply.Scalars.Laws.{parse_string-IsCaught}
use qbm_redis.Reply.Json.{
  Json, Members, JsonText, set_member, is_object, json_body, parse_json, array_json, member_loop,
  item_loop,
}

module _ (D : Type 0) ⦃F : Floating D⦄ ⦃J : JsonText D⦄ where
  json_body-IsCaught :
      (nested : Outcome (Json D)) (r : RedisReply) → IsCaught nested → IsCaught (json_body nested r)
  unfolding json_body
  json_body-IsCaught nested (reply t n none es) c = ground arith
  json_body-IsCaught nested (reply t n (some s) es) c = ground arith

  choice-IsCaught :
      (b : Bool) (m n : Outcome (Json D))
      → IsCaught m
      → IsCaught n
      → IsCaught (elim b [ true ↦ m | false ↦ n ])
  choice-IsCaught true m n cm cn = cm
  choice-IsCaught false m n cm cn = cn

  mutual
    unfolding parse_json

    -- A reply of any type and shape is a JSON value, or a `ProtoError`.
    pub parse_json-IsCaught : (r : RedisReply) → IsCaught (parse_json {D = D} r)
    parse_json-IsCaught (reply t n s es) =
        json_body-IsCaught (array_json es) (reply t n s es) (array_json-IsCaught es)

    array_json-IsCaught : (es : Elements) → IsCaught (array_json {D = D} es)
    array_json-IsCaught (null_array n) = tt
    array_json-IsCaught (array no_slot) = tt
    array_json-IsCaught (array (null_slot ss)) =
        >>=-IsCaught (item_loop {D = D} (null_slot ss)) _ (item_loop-IsCaught (null_slot ss))
          (λ v. tt)
    array_json-IsCaught (array (slot r ss)) =
        choice-IsCaught (is_object (slot r ss)) _ _
          (>>=-IsCaught (member_loop {D = D} _ (slot r ss)) _ (member_loop-IsCaught _ (slot r ss))
            (λ v. tt))
          (>>=-IsCaught (item_loop {D = D} (slot r ss)) _ (item_loop-IsCaught (slot r ss))
            (λ v. tt))

    member_loop-IsCaught : (obj : Members D) (ss : Slots) → IsCaught (member_loop obj ss)
    member_loop-IsCaught obj no_slot = tt
    member_loop-IsCaught obj (null_slot ss) = tt
    member_loop-IsCaught obj (slot k no_slot) = tt
    member_loop-IsCaught obj (slot k (null_slot ss)) = tt
    member_loop-IsCaught obj (slot k (slot v ss)) =
        >>=-IsCaught (parse_string k) _ (parse_string-IsCaught k) (λ key.
          >>=-IsCaught (parse_json {D = D} v) _ (parse_json-IsCaught v)
            (λ w. member_loop-IsCaught (set_member obj key w) ss))

    item_loop-IsCaught : (ss : Slots) → IsCaught (item_loop {D = D} ss)
    item_loop-IsCaught no_slot = tt
    item_loop-IsCaught (null_slot ss) =
        >>=-IsCaught (item_loop {D = D} ss) _ (item_loop-IsCaught ss) (λ v. tt)
    item_loop-IsCaught (slot r ss) =
        >>=-IsCaught (parse_json {D = D} r) _ (parse_json-IsCaught r)
          (λ v. >>=-IsCaught (item_loop {D = D} ss) _ (item_loop-IsCaught ss) (λ w. tt))
