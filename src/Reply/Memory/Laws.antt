-- ===== src/Reply/Memory/Laws.antt =====
-- reply.cpp, `parse<memory_info>`: what it throws.
use qbm_redis.Base.{List, [], ◌∷◌, Option, none, some, Bytes}
use qbm_redis.Outcome.{IsCaught}
use qbm_redis.Outcome.Caught.{>>=-IsCaught, throw_if-IsCaught}
use qbm_redis.Reply.{RedisReply, element, expected}
use qbm_redis.Reply.Scalars.{parse_string}
use qbm_redis.Reply.Scalars.Laws.{parse_string-IsCaught}
use qbm_redis.Reply.Memory.{map_assign, info_loop, info_parts, parse_memory_info}

info_loop-IsCaught :
    (m : List (Bytes × Bytes)) (es : List (Option RedisReply)) → IsCaught (info_loop m es)
unfolding info_loop
info_loop-IsCaught m [] = tt
info_loop-IsCaught m (none ∷ []) = tt
info_loop-IsCaught m (some k ∷ []) = tt
info_loop-IsCaught m (none ∷ v ∷ es) = info_loop-IsCaught m es
info_loop-IsCaught m (some k ∷ none ∷ es) = info_loop-IsCaught m es
info_loop-IsCaught m (some k ∷ some v ∷ es) =
    >>=-IsCaught (parse_string k) _ (parse_string-IsCaught k) (λ key.
      >>=-IsCaught (parse_string v) _ (parse_string-IsCaught v)
        (λ val. info_loop-IsCaught (map_assign m key val) es))

info_parts-IsCaught : (es : Option (List (Option RedisReply))) → IsCaught (info_parts es)
unfolding info_parts
info_parts-IsCaught none = tt
info_parts-IsCaught (some []) = tt
info_parts-IsCaught (some (e ∷ es)) =
    >>=-IsCaught (info_loop [] (e ∷ es)) _ (info_loop-IsCaught [] (e ∷ es)) (λ m. tt)

pub parse_memory_info-IsCaught : (r : RedisReply) → IsCaught (parse_memory_info r)
unfolding parse_memory_info expected
parse_memory_info-IsCaught r = throw_if-IsCaught _ _ _ tt (info_parts-IsCaught (element r))
