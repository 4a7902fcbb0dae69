-- ===== src/Reply/Containers/Laws/Scans.antt =====
-- reply.h, `parse_scan_reply`: what it throws, and the range of the cursor.
use qbm_redis.Base.{◌<◌, ◌^◌, ◌∷◌, [], List, Option, none, some, Bytes, arith}
use qbm_redis.Base.Int.{ℤ, pos, negsuc, InInt64}
use qbm_redis.Decimal.Extract.Bounds.{stoll-InInt64}
use qbm_redis.Types.{Scan}
use qbm_redis.Outcome.{IsCaught}
use qbm_redis.Outcome.Caught.{IsSafe, ok-IsSafe, >>=-IsSafe, IsCaught-IsSafe, IsSafe-IsCaught}
use qbm_redis.Reply.{RedisReply, element}
use qbm_redis.Reply.Scalars.Laws.{parse_string-IsCaught}
use qbm_redis.Reply.Containers.{Parser, to_size_t, cursor_of, scan_parts, parse_scan}
use qbm_redis.Reply.Containers.Laws.{Caught}

scan_parts-IsCaught : (es : Option (List (Option RedisReply))) → IsCaught (scan_parts es)
unfolding scan_parts
scan_parts-IsCaught none = tt
scan_parts-IsCaught (some []) = tt
scan_parts-IsCaught (some (none ∷ [])) = tt
scan_parts-IsCaught (some (some a ∷ [])) = tt
scan_parts-IsCaught (some (none ∷ b ∷ [])) = tt
scan_parts-IsCaught (some (some a ∷ none ∷ [])) = tt
scan_parts-IsCaught (some (some a ∷ some b ∷ [])) = tt
scan_parts-IsCaught (some (none ∷ b ∷ c ∷ es)) = tt
scan_parts-IsCaught (some (some a ∷ none ∷ c ∷ es)) = tt
scan_parts-IsCaught (some (some a ∷ some b ∷ c ∷ es)) = tt

cursor_of-IsSafe : (s : Bytes) → IsSafe InInt64 (cursor_of s)
unfolding cursor_of IsSafe
cursor_of-IsSafe s = ground (arith, stoll-InInt64 s)

to_size_t_fits : (n : ℤ) → InInt64 n → to_size_t n < 2 ^ 64
unfolding to_size_t
to_size_t_fits (pos n) h = omega arith
to_size_t_fits (negsuc n) h = omega arith

module _ {Out : Type 0} (to_output : Parser Out) (safe : Caught to_output) where
  -- The cursor is a `size_t`.
  pub parse_scan-IsSafe :
      (r : RedisReply) → IsSafe (λ (s : Scan Out). s.cursor < 2 ^ 64) (parse_scan to_output r)
  unfolding parse_scan
  parse_scan-IsSafe r =
      >>=-IsSafe _ _ _ _ (IsCaught-IsSafe _ (scan_parts-IsCaught (element r))) (λ parts _.
        >>=-IsSafe _ _ _ _ (IsCaught-IsSafe _ (parse_string-IsCaught parts.0)) (λ s _.
          >>=-IsSafe _ _ _ _ (cursor_of-IsSafe s) (λ n h.
            >>=-IsSafe _ _ _ _ (IsCaught-IsSafe _ (safe parts.1))
              (λ out _. ok-IsSafe _ _ (to_size_t_fits n h)))))

  pub parse_scan-Caught : Caught (parse_scan to_output)
  parse_scan-Caught r =
      IsSafe-IsCaught (λ s. s.cursor < 2 ^ 64) (parse_scan to_output r) (parse_scan-IsSafe r)
