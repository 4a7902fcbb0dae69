-- ===== src/Wire/Bulk.antt =====
-- reply.h: one bulk string on the pipe, and the `json_value` overloads of `redis_count` and
-- `to_redis_string`.
use qbm_redis.Base.{ℕ, ◌+◌, Bool, List, [], ◌∷◌, ◌++◌, Bytes, codes, length, if◌then◌else◌}
use qbm_redis.Decimal.{show_nat}
use qbm_redis.Floating.{Floating}
use qbm_redis.Types.{
  JsonValue, json_null, json_boolean, json_number, json_string, json_array, json_object, JsonItems,
  no_item, item, JsonFields, no_field, field,
}

abbrev pub crlf : Bytes
crlf = 13 ∷ 10 ∷ []

-- `to_redis_string(pipe, std::string const &)`, which the other overloads end in.
unfoldable pub put_bulk : Bytes → Bytes → Bytes
put_bulk pipe val = pipe ++ (b'$' ∷ (show_nat (length val) ++ (crlf ++ (val ++ crlf))))

unfoldable pub put_all : Bytes → List Bytes → Bytes
put_all pipe [] = pipe
put_all pipe (s ∷ ss) = put_all (put_bulk pipe s) ss

-- `std::get<bool>(json.data) ? "true" : "false"`
abbrev pub bool_text : Bool → Bytes
bool_text b = if b then codes "true" else codes "false"

module _ {D : Type 0} where
  unfoldable mutual
    pub json_count : JsonValue D → ℕ
    json_count json_null = 1
    json_count (json_boolean b) = 1
    json_count (json_number x) = 1
    json_count (json_string s) = 1
    json_count (json_array vs) = json_items_count vs
    json_count (json_object fs) = json_fields_count fs

    pub json_items_count : JsonItems D → ℕ
    json_items_count no_item = 0
    json_items_count (item v vs) = json_count v + json_items_count vs

    pub json_fields_count : JsonFields D → ℕ
    json_fields_count no_field = 0
    json_fields_count (field k v fs) = 1 + json_count v + json_fields_count fs

module _ {D : Type 0} ⦃F : Floating D⦄ where
  unfoldable mutual
    pub put_json : JsonValue D → Bytes → Bytes
    put_json json_null p = put_bulk p (codes "null")
    put_json (json_boolean b) p = put_bulk p (bool_text b)
    put_json (json_number x) p = put_bulk p (F.show x)
    put_json (json_string s) p = put_bulk p s
    put_json (json_array vs) p = put_json_items vs p
    put_json (json_object fs) p = put_json_fields fs p

    pub put_json_items : JsonItems D → Bytes → Bytes
    put_json_items no_item p = p
    put_json_items (item v vs) p = put_json_items vs (put_json v p)

    pub put_json_fields : JsonFields D → Bytes → Bytes
    put_json_fields no_field p = p
    put_json_fields (field k v fs) p = put_json_fields fs (put_json v (put_bulk p k))
