-- ===== src/Reply/Containers/Laws/Tuples.antt =====
-- reply.h, `parse_tuple`: what the reading of a tuple throws.
use qbm_redis.Base.{
  ℕ, suc, ◌≡◌, List, [], ◌∷◌, Option, none, some, arith, length, ◌==◌, Bool-cases, inl, inr,
}
use qbm_redis.Outcome.{Outcome, IsCaught}
use qbm_redis.Outcome.Caught.{>>=-IsCaught}
use qbm_redis.Reply.{RedisReply, reply, null_array, array, slot_list, expected}
use qbm_redis.Reply.Containers.{Parser, last_component, component, parse_tuple}
use qbm_redis.Reply.Containers.Laws.{Caught}

-- Components that are read from an array of this size.
abbrev pub RowCaught : {A : Type 0} → ℕ → (List (Option RedisReply) → Outcome A) → Type 0
RowCaught size row = (es : List (Option RedisReply)) → length es ≡ size → IsCaught (row es)

module _ {A : Type 0} (parse : Parser A) (safe : Caught parse) where
  last-IsCaught :
      (e : Option RedisReply) (es : List (Option RedisReply))
      → IsCaught (last_component parse (e ∷ es))
  unfolding last_component
  last-IsCaught none es = tt
  last-IsCaught (some r) es = safe r

  pub last_component-Caught : RowCaught 1 (last_component parse)
  unfolding last_component
  last_component-Caught [] h = omega (arith, h)
  last_component-Caught (e ∷ es) h = last-IsCaught e es

  pub component-Caught :
      {B : Type 0} (n : ℕ) (others : List (Option RedisReply) → Outcome B)
      → RowCaught n others
      → RowCaught (suc n) (component parse others)
  unfolding component
  component-Caught n others k [] h = omega (arith, h)
  component-Caught n others k (e ∷ es) h =
      >>=-IsCaught (last_component parse (e ∷ es)) _ (last-IsCaught e es)
        (λ a. >>=-IsCaught (others es) _ (k es (omega (arith, h))) (λ b. tt))

-- Any reply gives a tuple or a `ProtoError`.
pub parse_tuple-Caught :
    {A : Type 0} (n : ℕ) (row : List (Option RedisReply) → Outcome A)
    → RowCaught n row
    → Caught (parse_tuple n row)
unfolding parse_tuple expected
parse_tuple-Caught n row k (reply t i s (null_array j)) = ground arith
parse_tuple-Caught n row k (reply t i s (array ss)) =
    elim (Bool-cases (length (slot_list ss) == n)) [
      | inl e ↦ ground (arith, k (slot_list ss) (ground (arith, e)))
      | inr e ↦ ground (arith, e)
    ]
