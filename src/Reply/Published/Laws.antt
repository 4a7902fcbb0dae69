-- ===== src/Reply/Published/Laws.antt =====
-- reply.cpp, `parse<message>` and `parse<pmessage>`: what they throw.
use qbm_redis.Base.{
  ℕ, suc, ◌≡◌, false, not, List, [], ◌∷◌, Option, none, some, String, Bytes, ◌==◌, length, arith,
}
use qbm_redis.Types.{Message}
use qbm_redis.Outcome.{Exception, Outcome, throw, IsCaught, ◌>>=◌, ◌>>◌, throw_if}
use qbm_redis.Outcome.Caught.{>>=-IsCaught}
use qbm_redis.Reply.{RedisReply, reply, null_array, array, slot_list, element}
use qbm_redis.Reply.Scalars.{parse_string_view}
use qbm_redis.Reply.Scalars.Laws.{parse_string_view-IsCaught}
use qbm_redis.Reply.Published.{
  sub_reply, message_parts, parse_message, pmessage_parts, parse_pmessage,
}

sub_reply-IsCaught : (e : Option RedisReply) (text : String) → IsCaught (sub_reply e text)
unfolding sub_reply
sub_reply-IsCaught none text = tt
sub_reply-IsCaught (some r) text = tt

-- One view of the message, and what follows it.
view-IsCaught :
    {A : Type 0} (e : Option RedisReply) (text : String) (f : Bytes → Outcome A)
    → ((b : Bytes) → IsCaught (f b))
    → IsCaught (sub_reply e text >>= λ r. parse_string_view r >>= f)
view-IsCaught e text f k =
    >>=-IsCaught (sub_reply e text) _ (sub_reply-IsCaught e text)
      (λ r. >>=-IsCaught (parse_string_view r) f (parse_string_view-IsCaught r) k)

not_three : (n : ℕ) → (suc (suc (suc (suc n))) == 3) ≡ false
not_three n = ground arith

not_four : (n : ℕ) → (suc (suc (suc (suc (suc n)))) == 4) ≡ false
not_four n = ground arith

message_of-IsCaught :
    (es : List (Option RedisReply)) (e : Exception)
    → IsCaught {A = Message} (throw e)
    → IsCaught (throw_if (not (length es == 3)) e >> message_parts (some es))
unfolding message_parts
message_of-IsCaught [] e c = c
message_of-IsCaught (a ∷ []) e c = c
message_of-IsCaught (a ∷ b ∷ []) e c = c
message_of-IsCaught (a ∷ b ∷ d ∷ []) e c = view-IsCaught b _ _ (λ x. view-IsCaught d _ _ (λ y. tt))
message_of-IsCaught (a ∷ b ∷ d ∷ f ∷ es) e c = rw (not_three (length es)) c

pmessage_of-IsCaught :
    (es : List (Option RedisReply)) (e : Exception)
    → IsCaught {A = Message} (throw e)
    → IsCaught (throw_if (not (length es == 4)) e >> pmessage_parts (some es))
unfolding pmessage_parts
pmessage_of-IsCaught [] e c = c
pmessage_of-IsCaught (a ∷ []) e c = c
pmessage_of-IsCaught (a ∷ b ∷ []) e c = c
pmessage_of-IsCaught (a ∷ b ∷ d ∷ []) e c = c
pmessage_of-IsCaught (a ∷ b ∷ d ∷ f ∷ []) e c =
    view-IsCaught b _ _ (λ x. view-IsCaught d _ _ (λ y. view-IsCaught f _ _ (λ z. tt)))
pmessage_of-IsCaught (a ∷ b ∷ d ∷ f ∷ g ∷ es) e c = rw (not_four (length es)) c

pub parse_message-IsCaught :
    (r : RedisReply) (es : List (Option RedisReply))
    → element r ≡ some es
    → IsCaught (parse_message r) × IsCaught (parse_pmessage r)
unfolding parse_message parse_pmessage
parse_message-IsCaught (reply t n s (null_array k)) es h = cc
parse_message-IsCaught (reply t n s (array ss)) es h =
    (message_of-IsCaught (slot_list ss) _ tt, pmessage_of-IsCaught (slot_list ss) _ tt)
