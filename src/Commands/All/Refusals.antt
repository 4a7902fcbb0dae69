-- ===== src/Commands/All/Refusals.antt =====
-- set_commands.h, list_commands.h, hash_commands.h, sorted_set_commands.h, stream_commands.h: the tests
-- behind which an overload with a callback returns early, or throws, and sends nothing.
use qbm_redis.Base.{Bool, false, ◌||◌, ◌==◌, is_empty}
use qbm_redis.Base.Int.{pos, ltb_ℤ}
use qbm_redis.Wire.{size}
use qbm_redis.Commands.Streams.{is_invalid}
use qbm_redis.Commands.Sets.Syntax.{SetCommand}
use qbm_redis.Commands.Lists.Syntax.{ListCommand}
use qbm_redis.Commands.Hashes.Syntax.{HashCommand}
use qbm_redis.Commands.SortedSets.Syntax.{SortedSetCommand}
use qbm_redis.Commands.Streams.Syntax.{StreamCommand}
use qbm_redis.Commands.All.{AnyCommand, sets, lists, hashes, sorted_sets, streams}

-- The set commands need a key, and members, a member or a number of members where they take these.
unfoldable pub set_refuses : {D : Type 0} → SetCommand D → Bool
unfolding is_empty size ltb_ℤ
set_refuses (SetCommand.sadd key members) = is_empty key || size members == 0
set_refuses (SetCommand.srem key members) = is_empty key || size members == 0
set_refuses (SetCommand.smismember key members) = is_empty key || size members == 0
set_refuses (SetCommand.scard key) = is_empty key
set_refuses (SetCommand.sismember key member) = is_empty key || is_empty member
set_refuses (SetCommand.smembers key) = is_empty key
set_refuses (SetCommand.smove source destination member) =
    is_empty source || is_empty destination || is_empty member
set_refuses (SetCommand.spop key) = is_empty key
set_refuses (SetCommand.srandmember key) = is_empty key
set_refuses (SetCommand.spop_count key n) = is_empty key || ltb_ℤ n (pos 1)
set_refuses (SetCommand.srandmember_count key n) = is_empty key
set_refuses (SetCommand.sscan key cursor pattern n) = is_empty key
set_refuses (SetCommand.sdiff keys) = is_empty keys
set_refuses (SetCommand.sinter keys) = is_empty keys
set_refuses (SetCommand.sunion keys) = is_empty keys
set_refuses (SetCommand.sdiffstore destination keys) = is_empty destination || is_empty keys
set_refuses (SetCommand.sinterstore destination keys) = is_empty destination || is_empty keys
set_refuses (SetCommand.sunionstore destination keys) = is_empty destination || is_empty keys
set_refuses (SetCommand.sintercard keys limit) = is_empty keys

-- The overload of `xread` and of `xreadgroup` for several keys throws `std::invalid_argument`.
unfoldable pub stream_refuses : {D : Type 0} → StreamCommand D → Bool
unfolding is_invalid
stream_refuses (StreamCommand.xread_of_keys keys ids n block) = is_invalid keys ids
stream_refuses (StreamCommand.xreadgroup_of_keys keys group consumer ids n block) =
    is_invalid keys ids
stream_refuses _ = false

-- Of the list commands only `lpos` returns early where it takes a callback; of the other classes a scan of
-- an empty key does.
unfoldable pub is_refused : {D : Type 0} → AnyCommand D → Bool
unfolding is_empty set_refuses stream_refuses
is_refused (sets c) = set_refuses c
is_refused (streams c) = stream_refuses c
is_refused (lists (ListCommand.lpos key element rank n maxlen)) = is_empty key || is_empty element
is_refused (hashes (HashCommand.hscan key cursor pattern n)) = is_empty key
is_refused (sorted_sets (SortedSetCommand.zscan key cursor pattern n)) = is_empty key
is_refused _ = false
