-- ===== src/Tests/Wire.antt =====
-- The theorems on frames, numbers and stream ids at concrete inputs.
use qbm_redis.Base.{
  ◌↔◌, ◌⊎◌, ◌&&◌, not, true, false, ◌≡◌, ◌++◌, [], ◌∷◌, none, some, Bytes, codes, arith,
}
use qbm_redis.Base.Int.{ℤ, pos, negsuc}
use qbm_redis.Types.{StreamId}
use qbm_redis.Types.Ids.{id_eq, id_lt}
use qbm_redis.Types.Order.{id_lt_order}
use qbm_redis.Wire.{
  Arg, str, number, pair, container, chars, Args, end, arg, redis_count, put_in_pipe,
}
use qbm_redis.Wire.Words.{words_of}
use qbm_redis.Wire.Request.{read_request}
use qbm_redis.Wire.Framing.{put_in_pipe-read, chars_stall}
use qbm_redis.Wire.Pipeline.{put_commands, read_requests, put_commands-read}
use qbm_redis.Tests.{integers}

abbrev key : Bytes
key = codes "k"

abbrev pair_list : Arg ℤ
pair_list =
    container (arg (pair (str key) (number (pos 7))) (arg (pair (str key) (number (negsuc 0))) end))

abbrev set_args : Args ℤ
set_args = arg (str (codes "MSET")) (arg pair_list end)

abbrev get_args : Args ℤ
get_args = arg (str (codes "GET")) (arg (str key) end)

put_in_pipe-read_example :
    (put_in_pipe key set_args ≡ key ++ put_in_pipe [] set_args)
    × (read_request (put_in_pipe [] set_args ++ key) ≡ some (words_of set_args, key))
unfolding redis_count
put_in_pipe-read_example = put_in_pipe-read key key set_args (omega arith)

put_commands-read_example :
    read_requests 2 (put_commands [] (set_args ∷ get_args ∷ []))
    ≡ some (words_of set_args ∷ words_of get_args ∷ [], [])
unfolding redis_count
put_commands-read_example = put_commands-read (set_args ∷ get_args ∷ []) (omega arith)

chars_stall_example : read_request (put_in_pipe [] (arg (chars (codes "ab")) get_args)) ≡ none
unfolding redis_count codes
chars_stall_example = chars_stall get_args (codes "ab") (omega arith) (omega arith)

abbrev first_id : StreamId
first_id = record { timestamp = pos 1; sequence = pos 5 }

abbrev second_id : StreamId
second_id = record { timestamp = pos 1; sequence = pos 6 }

abbrev third_id : StreamId
third_id = record { timestamp = pos 2; sequence = pos 0 }

id_lt_order_example :
    ((id_eq first_id second_id ≡ true) ↔ (first_id ≡ second_id))
    × ((id_lt first_id second_id ≡ true)
        ⊎ ((id_eq first_id second_id ≡ true) ⊎ (id_lt second_id first_id ≡ true)))
    × (id_lt first_id first_id ≡ false)
    × ((id_lt first_id second_id && (id_lt second_id third_id && not (id_lt first_id third_id)))
        ≡ false)
id_lt_order_example = id_lt_order first_id second_id third_id
