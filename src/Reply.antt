-- ===== src/Reply.antt =====
-- `redisReply`, the struct that hiredis hands out, and what types.h and reply.cpp ask of it: the
-- tests on its type, the name of a type, the text of a `ParseError`. RESP3 is off, as in the build.
pub mod Scalars
pub mod Published
pub mod Containers
pub mod Records
pub mod Streams
pub mod Cluster
pub mod Json
pub mod Memory
pub mod Totality
use qbm_redis.Base.{
  ℕ, zero, suc, Bool, true, false, List, [], ◌∷◌, ◌++◌, Option, none, some, String, Bytes, codes,
  length, ◌==◌, if◌then◌else◌,
}
use qbm_redis.Base.Int.{ℤ}
use qbm_redis.Outcome.{Exception, parse_error}

-- `type`, `integer`, `str` with `len` (or a null pointer), and `element` with `elements`. `len` is the
-- length of the text, and `elements` that of the array, unless the pointer is null.
mutual
  pub data RedisReply : Type 0 where
    reply : ℕ → ℤ → Option Bytes → Elements → RedisReply

  pub data Elements : Type 0 where
    null_array : ℕ → Elements
    array : Slots → Elements

  -- Each element of the array is a pointer that may be null.
  pub data Slots : Type 0 where
    no_slot : Slots
    null_slot : Slots → Slots
    slot : RedisReply → Slots → Slots

abbrev pub type_of : RedisReply → ℕ
type_of (reply t n s es) = t

abbrev pub integer_of : RedisReply → ℤ
integer_of (reply t n s es) = n

abbrev pub str_of : RedisReply → Option Bytes
str_of (reply t n s es) = s

abbrev pub slot_list : Slots → List (Option RedisReply)
slot_list no_slot = []
slot_list (null_slot ss) = none ∷ slot_list ss
slot_list (slot r ss) = some r ∷ slot_list ss

abbrev pub array_of : Elements → Option (List (Option RedisReply))
array_of (null_array n) = none
array_of (array ss) = some (slot_list ss)

abbrev pub count_of : Elements → ℕ
count_of (null_array n) = n
count_of (array ss) = length (slot_list ss)

abbrev pub element : RedisReply → Option (List (Option RedisReply))
element (reply t n s es) = array_of es

abbrev pub elements : RedisReply → ℕ
elements (reply t n s es) = count_of es

-- The constants of hiredis/read.h.
abbrev pub reply_string : ℕ
reply_string = 1

abbrev pub reply_array : ℕ
reply_array = 2

abbrev pub reply_integer : ℕ
reply_integer = 3

abbrev pub reply_nil : ℕ
reply_nil = 4

abbrev pub reply_status : ℕ
reply_status = 5

abbrev pub reply_error : ℕ
reply_error = 6

unfoldable pub is_error : RedisReply → Bool
is_error r = type_of r == reply_error

unfoldable pub is_nil : RedisReply → Bool
is_nil r = type_of r == reply_nil

unfoldable pub is_string : RedisReply → Bool
is_string r = type_of r == reply_string

unfoldable pub is_status : RedisReply → Bool
is_status r = type_of r == reply_status

unfoldable pub is_integer : RedisReply → Bool
is_integer r = type_of r == reply_integer

unfoldable pub is_array : RedisReply → Bool
is_array r = type_of r == reply_array

unfoldable pub type_to_string : ℕ → Bytes
type_to_string t =
    if t == reply_error
    then codes "ERROR"
    else if t == reply_nil
    then codes "NULL"
    else if t == reply_string
    then codes "STRING"
    else if t == reply_status
    then codes "STATUS"
    else if t == reply_integer
    then codes "INTEGER"
    else if t == reply_array
    then codes "ARRAY"
    else codes "UNKNOWN"

-- `ParseError::_err_info`
unfoldable pub err_info : Bytes → RedisReply → Bytes
unfolding type_to_string
err_info expect r =
    codes "expect "
    ++ (expect ++ (codes " reply, but got " ++ (type_to_string (type_of r) ++ codes " reply")))

-- `ParseError(expect, reply)`
unfoldable pub expected : String → RedisReply → Exception
unfolding err_info
expected text r = parse_error (err_info (codes text) r)
