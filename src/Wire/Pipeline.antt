-- ===== src/Wire/Pipeline.antt =====
-- reply.h, `put_in_pipe`: several commands on one pipe.
use qbm_redis.Base.{
  ℕ, zero, suc, ◌≡◌, refl, sym, ap, ◌∙◌, List, [], ◌∷◌, ◌++◌, append-nil, append_assoc, Option,
  some, Bytes, length, ◌>>=◌, All, map,
}
use qbm_redis.Floating.{Floating}
use qbm_redis.Wire.{Args, put_in_pipe}
use qbm_redis.Wire.Words.{words_of}
use qbm_redis.Wire.Request.{read_request}
use qbm_redis.Wire.Counting.{AllUniform}
use qbm_redis.Wire.Framing.{put_in_pipe-append, put_in_pipe-read}

pub read_requests : ℕ → Bytes → Option (List (List Bytes) × Bytes)
read_requests zero s = some ([], s)
read_requests (suc n) s =
    read_request s >>= λ (r, t). read_requests n t >>= λ (rs, u). some (r ∷ rs, u)

module _ {D : Type 0} ⦃F : Floating D⦄ where
  -- The pipe after commands that were put into it one after the other.
  unfoldable pub put_commands : Bytes → List (Args D) → Bytes
  put_commands p [] = p
  put_commands p (c ∷ cs) = put_commands (put_in_pipe p c) cs

  put_commands-append :
      (p : Bytes) (cs : List (Args D)) → put_commands p cs ≡ p ++ put_commands [] cs
  unfolding put_commands
  put_commands-append p [] = sym (append-nil p)
  put_commands-append p (c ∷ cs) =
      put_commands-append (put_in_pipe p c) cs
      ∙ rw (put_in_pipe-append p c) (
          append_assoc p (put_in_pipe [] c) (put_commands [] cs)
          ∙ ap (λ q. p ++ q) (sym (put_commands-append (put_in_pipe [] c) cs)))

  -- A server that reads as many requests as commands with uniform arguments were put into an empty
  -- pipe gets the words of each of them, in order, and nothing is left over.
  pub put_commands-read :
      (cs : List (Args D))
      → All AllUniform cs
      → read_requests (length cs) (put_commands [] cs) ≡ some (map words_of cs, [])
  unfolding put_commands read_requests
  put_commands-read [] h = refl
  put_commands-read (c ∷ cs) (u, h) = rw (
    put_commands-append (put_in_pipe [] c) cs,
    (put_in_pipe-read [] (put_commands [] cs) c u).1,
    put_commands-read cs h,
  )
