-- ===== src/Reply/Published.antt =====
-- reply.cpp: what a subscriber receives. `parse<message>` and `parse<pmessage>` take the reply over
-- as their first step, in a `reply_ptr` that frees it when they throw; Consumer counts the owners.
pub mod Laws
use qbm_redis.Base.{
  not, List, [], ◌∷◌, Option, none, some, String, Bytes, codes, ◌==◌, if◌then◌else◌,
}
use qbm_redis.Types.{Message, Subscription}
use qbm_redis.Outcome.{proto_error, Outcome, ok, throw, fault, ◌>>=◌, ◌>>◌, throw_if}
use qbm_redis.Reply.{RedisReply, elements, element, is_nil}
use qbm_redis.Reply.Scalars.{parse_string_view, parse_string, parse_long_long}

-- `reply.element[i]` with `i` in the array, behind the test of the pointer that it holds.
unfoldable pub sub_reply : Option RedisReply → String → Outcome RedisReply
sub_reply none text = throw (proto_error (codes text))
sub_reply (some r) text = ok r

unfoldable pub message_parts : Option (List (Option RedisReply)) → Outcome Message
unfolding sub_reply
message_parts (some (kind ∷ channel ∷ msg ∷ [])) = do
  channel_reply ← sub_reply channel "Null channel reply"
  c ← parse_string_view channel_reply
  msg_reply ← sub_reply msg "Null message reply"
  m ← parse_string_view msg_reply
  ok (record { pattern = []; channel = c; message = m })
message_parts _ = fault

unfoldable pub parse_message : RedisReply → Outcome Message
unfolding message_parts
parse_message r = do
  throw_if (not (elements r == 3)) (proto_error (codes "Expect 3 sub replies"))
  message_parts (element r)

unfoldable pub pmessage_parts : Option (List (Option RedisReply)) → Outcome Message
unfolding sub_reply
pmessage_parts (some (kind ∷ pattern ∷ channel ∷ msg ∷ [])) = do
  pattern_reply ← sub_reply pattern "Null pattern reply"
  p ← parse_string_view pattern_reply
  channel_reply ← sub_reply channel "Null channel reply"
  c ← parse_string_view channel_reply
  msg_reply ← sub_reply msg "Null message reply"
  m ← parse_string_view msg_reply
  ok (record { pattern = p; channel = c; message = m })
pmessage_parts _ = fault

unfoldable pub parse_pmessage : RedisReply → Outcome Message
unfolding pmessage_parts
parse_pmessage r = do
  throw_if (not (elements r == 4)) (proto_error (codes "Expect 4 sub replies"))
  pmessage_parts (element r)

-- `parse<std::optional<std::string>>` of the channel: a nil reply is no channel.
unfoldable pub optional_channel : RedisReply → Outcome (Option Bytes)
unfolding is_nil
optional_channel r = if is_nil r then ok none else (do s ← parse_string r; ok (some s))

unfoldable pub subscription_parts : Option (List (Option RedisReply)) → Outcome Subscription
unfolding sub_reply optional_channel
subscription_parts (some (kind ∷ channel ∷ count ∷ [])) = do
  channel_reply ← sub_reply channel "Null channel reply"
  c ← optional_channel channel_reply
  num_reply ← sub_reply count "Null num reply"
  n ← parse_long_long num_reply
  ok (record { channel = c; num = n })
subscription_parts _ = fault

unfoldable pub parse_subscription : RedisReply → Outcome Subscription
unfolding subscription_parts
parse_subscription r = do
  throw_if (not (elements r == 3)) (proto_error (codes "Expect 3 sub replies"))
  subscription_parts (element r)
