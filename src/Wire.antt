-- ===== src/Wire.antt =====
-- reply.h, the writing half: how many bulk strings an argument of a command counts for
-- (`redis_count`), the bytes that it is written as (`to_redis_string`), and the frame of a command
-- (`put_in_pipe`). The pipe is the list of the bytes that were put into it.
pub mod Bulk
pub mod Words
pub mod Request
pub mod Counting
pub mod Framing
pub mod Pipeline
use qbm_redis.Base.{
  ℕ, zero, suc, ◌+◌, ◌*◌, Bool, true, false, ◌&&◌, List, [], ◌∷◌, ◌++◌, Option, none, some, Bytes,
  codes, length, ◌==◌, if◌then◌else◌,
}
use qbm_redis.Base.Int.{ℤ}
use qbm_redis.Decimal.{show_nat, to_string}
use qbm_redis.Floating.{Floating}
use qbm_redis.Types.{
  GeoPos, StreamId, Score, ScoreMember, SearchResult, ClusterNode, JsonValue, json_null,
  json_boolean, json_number, json_string, json_array, json_object, JsonItems, no_item, item,
  JsonFields, no_field, field,
}
use qbm_redis.Types.Ids.{id_text}
use qbm_redis.Wire.Bulk.{crlf, put_bulk, put_all, json_count, put_json}

-- An argument: one constructor for each overload of `to_redis_string` that has a `redis_count` too.
mutual
  pub data Arg (D : Type 0) : Type 0 where
    -- `const char (&)[N]`, `const char *` (or null), `std::string`
    literal : Bytes → Arg D
    c_str : Option Bytes → Arg D
    str : Bytes → Arg D
    -- an arithmetic type
    number : ℤ → Arg D
    floating : D → Arg D
    nullopt : Arg D
    engaged : Arg D → Arg D
    tuple : Args D → Arg D
    pair : Arg D → Arg D → Arg D
    -- a container of values, and one of key-value pairs
    container : Args D → Arg D
    mapping : Entries D → Arg D
    -- `std::vector<char>`
    chars : Bytes → Arg D
    geo_pos : GeoPos D → Arg D
    stream_id : StreamId → Arg D
    score : Score D → Arg D
    score_member : ScoreMember D → Arg D
    search_result : SearchResult → Arg D
    cluster_node : ClusterNode → Arg D
    json_value : JsonValue D → Arg D

  pub data Args (D : Type 0) : Type 0 where
    end : Args D
    arg : Arg D → Args D → Args D

  pub data Entries (D : Type 0) : Type 0 where
    no_entry : Entries D
    entry : Arg D → Arg D → Entries D → Entries D

module _ {D : Type 0} where
  -- `size()` of a container, and `sizeof...` of a tuple.
  unfoldable pub size : Args D → ℕ
  size end = 0
  size (arg a ts) = suc (size ts)

  unfoldable pub entries_size : Entries D → ℕ
  entries_size no_entry = 0
  entries_size (entry k v es) = suc (entries_size es)

module _ {D : Type 0} where
  -- `redis_count`. A tuple and a pair count their components, a container its first element as often
  -- as it has elements; `std::vector<char>` is a container of arithmetic values.
  unfoldable pub redis_count : Arg D → ℕ
  unfolding size entries_size json_count
  redis_count (literal s) = 1
  redis_count (c_str s) = 1
  redis_count (str s) = 1
  redis_count (number n) = 1
  redis_count (floating x) = 1
  redis_count nullopt = 0
  redis_count (engaged a) = redis_count a
  redis_count (tuple ts) = size ts
  redis_count (pair a b) = 2
  redis_count (container end) = 0
  redis_count (container (arg a ts)) = redis_count a * suc (size ts)
  redis_count (mapping no_entry) = 0
  redis_count (mapping (entry k v es)) = 2 * suc (entries_size es)
  redis_count (chars s) = if length s == 0 then 0 else 1 * length s
  redis_count (geo_pos p) = 2
  redis_count (stream_id id) = 1
  redis_count (score s) = 1
  redis_count (score_member s) = 2
  redis_count (search_result r) = 1 + length r.fields + length r.values
  redis_count (cluster_node n) = 1
  redis_count (json_value v) = json_count v

  -- `(redis_count(args) + ...)`
  unfoldable pub total_count : Args D → ℕ
  unfolding redis_count
  total_count end = 0
  total_count (arg a ts) = redis_count a + total_count ts

module _ {D : Type 0} ⦃F : Floating D⦄ where
  -- `to_redis_string`: the pipe after the call. `put_tuple` and `put_in_pipe` stop where a call
  -- returns false; every overload returns true.
  unfoldable mutual
    unfolding put_bulk put_all put_json

    pub to_redis_string : Arg D → Bytes → Bool × Bytes
    to_redis_string (literal s) p = (true, put_bulk p s)
    to_redis_string (c_str none) p = (true, put_bulk p [])
    to_redis_string (c_str (some s)) p = (true, put_bulk p s)
    to_redis_string (str s) p = (true, put_bulk p s)
    to_redis_string (number n) p = (true, put_bulk p (to_string n))
    to_redis_string (floating x) p = (true, put_bulk p (F.show x))
    to_redis_string nullopt p = (true, p)
    to_redis_string (engaged a) p = (true, (to_redis_string a p).1)
    to_redis_string (tuple ts) p = put_tuple ts p
    to_redis_string (pair a b) p = (true, (to_redis_string b (to_redis_string a p).1).1)
    to_redis_string (container ts) p = (true, put_each ts p)
    to_redis_string (mapping es) p = (true, put_entries es p)
    to_redis_string (chars s) p = (true, put_bulk p s)
    to_redis_string (geo_pos c) p =
        (true, put_bulk (put_bulk p (F.show c.longitude)) (F.show c.latitude))
    to_redis_string (stream_id id) p = (true, put_bulk p (id_text id))
    to_redis_string (score s) p = (true, put_bulk p (F.show s.value))
    to_redis_string (score_member s) p = (true, put_bulk (put_bulk p (F.show s.score)) s.member)
    to_redis_string (search_result r) p =
        (true, put_all (put_all (put_bulk p r.key) r.fields) r.values)
    to_redis_string (cluster_node n) p = (true, put_bulk p n.id)
    to_redis_string (json_value v) p = (true, put_json v p)

    pub put_tuple : Args D → Bytes → Bool × Bytes
    put_tuple end p = (true, p)
    put_tuple (arg a ts) p =
        if (to_redis_string a p).0
        then put_tuple ts (to_redis_string a p).1
        else (false, (to_redis_string a p).1)

    pub put_each : Args D → Bytes → Bytes
    put_each end p = p
    put_each (arg a ts) p = put_each ts (to_redis_string a p).1

    pub put_entries : Entries D → Bytes → Bytes
    put_entries no_entry p = p
    put_entries (entry k v es) p = put_entries es (to_redis_string v (to_redis_string k p).1).1

  -- `put_in_pipe`: the announced number of bulk strings, then the arguments.
  unfoldable pub put_in_pipe : Bytes → Args D → Bytes
  unfolding total_count put_tuple
  put_in_pipe pipe args =
      (put_tuple args (pipe ++ (b'*' ∷ (show_nat (total_count args) ++ crlf)))).1
