-- ===== src/Wire/Framing.antt =====
-- reply.h, `put_in_pipe`: the number that a frame announces against the number of the words that
-- follow it.
use qbm_redis.Base.{
  ◌<◌, ◌≡◌, sym, ap, ◌∙◌, Bool, [], ◌∷◌, ◌++◌, append-nil, append_assoc, none, some, Bytes, length,
  arith,
}
use qbm_redis.Decimal.{show_nat}
use qbm_redis.Floating.{Floating}
use qbm_redis.Wire.{chars, Args, arg, redis_count, total_count, put_in_pipe}
use qbm_redis.Wire.Bulk.{crlf}
use qbm_redis.Wire.Words.{bulks, words, words_of, put_tuple-words}
use qbm_redis.Wire.Request.{
  read_request, read_bulks, read_bulks-bulks, read_bulks-short, read_request-header,
}
use qbm_redis.Wire.Counting.{AllUniform, total_count-words}

module _ {D : Type 0} ⦃F : Floating D⦄ where
  -- The frame of a command.
  put_in_pipe-frame :
      (p : Bytes) (args : Args D)
      → put_in_pipe p args
        ≡ p ++ (b'*' ∷ (show_nat (total_count args) ++ (crlf ++ bulks (words_of args))))
  unfolding put_in_pipe
  put_in_pipe-frame p args =
      ap (λ (r : Bool × Bytes). r.1) (put_tuple-words args _) ∙ simp append_assoc

module _ {D : Type 0} ⦃F : Floating D⦄ where
  read_frame :
      (args : Args D) (rest : Bytes)
      → read_request (put_in_pipe [] args ++ rest)
        ≡ read_bulks (total_count args) (bulks (words_of args) ++ rest)
  read_frame args rest =
      rw
        (
          put_in_pipe-frame [] args,
          append_assoc (show_nat (total_count args)),
          append_assoc crlf (bulks (words_of args)) rest,
        )
        (read_request-header (total_count args) (bulks (words_of args) ++ rest))

  read_frame_alone :
      (args : Args D)
      → read_request (put_in_pipe [] args) ≡ read_bulks (total_count args) (bulks (words_of args))
  read_frame_alone args =
      ap read_request (sym (append-nil (put_in_pipe [] args)))
      ∙ read_frame args []
      ∙ ap (read_bulks (total_count args)) (append-nil (bulks (words_of args)))

  pub put_in_pipe-append :
      (p : Bytes) (args : Args D) → put_in_pipe p args ≡ p ++ put_in_pipe [] args
  put_in_pipe-append p args =
      put_in_pipe-frame p args ∙ ap (λ q. p ++ q) (sym (put_in_pipe-frame [] args))

  -- A command is appended to the pipe, and a server reads exactly its words from it and leaves what
  -- follows, if every argument is uniform.
  pub put_in_pipe-read :
      (p rest : Bytes) (args : Args D)
      → AllUniform args
      → (put_in_pipe p args ≡ p ++ put_in_pipe [] args)
        × (read_request (put_in_pipe [] args ++ rest) ≡ some (words_of args, rest))
  put_in_pipe-read p rest args u = (
    put_in_pipe-append p args,
    read_frame args rest ∙ rw (total_count-words args u) (read_bulks-bulks (words_of args) rest),
  )

  -- A frame that announces more words than follow is never complete for the server, which waits.
  pub overcount_stalls :
      (args : Args D)
      → length (words_of args) < total_count args
      → read_request (put_in_pipe [] args) ≡ none
  overcount_stalls args h =
      read_frame_alone args ∙ read_bulks-short (total_count args) (words_of args) h

  -- `std::vector<char>` is written as one word and counted once for each byte, so a command with a
  -- longer one, and otherwise uniform arguments, is never complete for the server.
  pub chars_stall :
      (args : Args D) (v : Bytes)
      → AllUniform args
      → 1 < length v
      → read_request (put_in_pipe [] (arg (chars v) args)) ≡ none
  unfolding redis_count total_count words
  chars_stall args v u h =
      overcount_stalls (arg (chars v) args) (ground (arith, total_count-words args u))
