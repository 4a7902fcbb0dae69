-- ===== src/Types.antt =====
-- types.h: the enumerations and the structures that commands take and that replies are turned into.
-- `D` stands for `double`.
pub mod Ids
pub mod Order
use qbm_redis.Base.{ℕ, Bool, true, false, List, Option, Bytes, codes, same_bytes}
use qbm_redis.Base.Int.{ℤ}

pub data UpdateType : Type 0 where
  exist not_exist always : UpdateType

pub data InsertPosition : Type 0 where
  before after : InsertPosition

pub data ListPosition : Type 0 where
  left right : ListPosition

pub data BoundType : Type 0 where
  closed opened left_open right_open : BoundType

pub data Aggregation : Type 0 where
  sum minimum maximum : Aggregation

pub data BitOp : Type 0 where
  op_and op_or op_xor op_not : BitOp

pub data GeoUnit : Type 0 where
  m km mi ft : GeoUnit

pub record GeoPos (D : Type 0) : Type 0 where
  pub longitude : D
  pub latitude : D

pub record StreamId : Type 0 where
  pub timestamp : ℤ
  pub sequence : ℤ

-- An `unordered_map` is the list of its entries, in the order in which it is walked.
pub record StreamEntry : Type 0 where
  pub id : StreamId
  pub fields : List (Bytes × Bytes)

-- `size_t` fields
pub record MemoryInfo : Type 0 where
  pub used_memory : ℕ
  pub used_memory_peak : ℕ
  pub used_memory_lua : ℕ
  pub used_memory_scripts : ℕ
  pub number_of_keys : ℕ
  pub number_of_expires : ℕ
  pub number_of_connected_clients : ℕ
  pub number_of_slaves : ℕ
  pub number_of_replicas : ℕ
  pub number_of_commands_processed : ℕ
  pub total_connections_received : ℕ
  pub total_commands_processed : ℕ
  pub instantaneous_ops_per_sec : ℕ
  pub total_net_input_bytes : ℕ
  pub total_net_output_bytes : ℕ
  pub instantaneous_input_kbps : ℕ
  pub instantaneous_output_kbps : ℕ

pub record LimitOptions : Type 0 where
  pub offset : ℤ
  pub count : ℤ

pub record Score (D : Type 0) : Type 0 where
  pub value : D

pub record ScoreMember (D : Type 0) : Type 0 where
  pub score : D
  pub member : Bytes

pub record SearchResult : Type 0 where
  pub key : Bytes
  pub fields : List Bytes
  pub values : List Bytes

pub record ClusterNode : Type 0 where
  pub id : Bytes
  pub ip : Bytes
  pub port : ℤ
  pub flags : List Bytes
  pub master : Bytes
  pub ping_sent : ℤ
  pub pong_received : ℤ
  pub epoch : ℤ
  pub link_state : Bytes
  pub slots : List Bytes

-- `json_value`: the tag and the alternative of the variant that belongs to it.
mutual
  pub data JsonValue (D : Type 0) : Type 0 where
    json_null : JsonValue D
    json_boolean : Bool → JsonValue D
    json_number : D → JsonValue D
    json_string : Bytes → JsonValue D
    json_array : JsonItems D → JsonValue D
    json_object : JsonFields D → JsonValue D

  pub data JsonItems (D : Type 0) : Type 0 where
    no_item : JsonItems D
    item : JsonValue D → JsonItems D → JsonItems D

  pub data JsonFields (D : Type 0) : Type 0 where
    no_field : JsonFields D
    field : Bytes → JsonValue D → JsonFields D → JsonFields D

-- The views of a published message, without the reply that owns their bytes.
pub record Message : Type 0 where
  pub pattern : Bytes
  pub channel : Bytes
  pub message : Bytes

pub record Subscription : Type 0 where
  pub channel : Option Bytes
  pub num : ℤ

pub record Status : Type 0 where
  pub str : Bytes

-- `status::operator bool`.
unfoldable pub status_ok : Status → Bool
unfolding same_bytes codes
status_ok s = same_bytes s.str (codes "OK")

pub record Scan (Out : Type 0) : Type 0 where
  pub cursor : ℕ
  pub items : Out
