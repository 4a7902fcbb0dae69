-- ===== src/Commands/Streams/Requests.antt =====
-- stream_commands.h: the requests of all methods.
use qbm_redis.Base.{
  ◌≡◌, refl, Bool, true, false, [], ◌∷◌, ◌++◌, append-nil, append_assoc, Option, none, some, Bytes,
  codes, arith,
}
use qbm_redis.Base.Int.{ℤ}
use qbm_redis.Floating.{Floating}
use qbm_redis.Reply.Json.{JsonText}
use qbm_redis.Commands.{AnyRequest, any, packed_request}
use qbm_redis.Wire.{Args, redis_count}
use qbm_redis.Commands.Streams.{
  create_args, trim_args, read_args, group_args, pending_args, id_or_any,
}
use qbm_redis.Commands.Streams.Entries
use qbm_redis.Commands.Streams.Groups
use qbm_redis.Wire.Words.{words, words_of}
use qbm_redis.Wire.Counting.{AllUniform}
use qbm_redis.Commands.Arguments.Laws.{
  push_if-clause, named, insert_option-named, pair_list-IsUniform, pair_args-words,
  string_list-IsUniform, string_args-words, option_words,
}
use qbm_redis.Commands.Streams.Syntax.{
  StreamCommand, xadd, xadd_func, xlen, xdel, xtrim, xread, xread_of_keys, xinfo_stream, xinfo_help,
  xgroup_create, xgroup_destroy, xgroup_delconsumer, xack, xreadgroup, xreadgroup_of_keys,
  xinfo_groups, xinfo_consumers, xpending, syntax, id_word, trim_words, create_words, group_words,
  pending_words,
}

id_or_any-word : (id : Option Bytes) → id_or_any id ≡ id_word id
unfolding id_or_any id_word
id_or_any-word none = refl
id_or_any-word (some id) = refl

trim_args-words : (key : Bytes) (n : ℤ) (b : Bool) → trim_args key n b ≡ trim_words key n b
unfolding trim_args trim_words
trim_args-words key n true = refl
trim_args-words key n false = refl

create_args-words :
    (key group id : Bytes) (b : Bool) → create_args key group id b ≡ create_words key group id b
unfolding create_args create_words
create_args-words key group id b =
    push_if-clause b (codes "MKSTREAM" ∷ []) (codes "CREATE" ∷ key ∷ group ∷ id ∷ [])

read_args-words :
    (a b : Option ℤ) → read_args a b ≡ named (codes "COUNT") a ++ named (codes "BLOCK") b
unfolding read_args
read_args-words a b = simp insert_option-named

group_args-words : (g c : Bytes) (a b : Option ℤ) → group_args g c a b ≡ group_words g c a b
unfolding group_args group_words
group_args-words g c a b = simp insert_option-named

pending_args-words :
    (key g s l : Bytes) (n : ℤ) (c : Option Bytes)
    → pending_args key g s l n c ≡ pending_words key g s l n c
unfolding pending_args pending_words option_words
pending_args-words key g s l n none = refl
pending_args-words key g s l n (some c) = refl

module _ {D : Type 0} ⦃F : Floating D⦄ ⦃J : JsonText D⦄ where
  -- The request of the method.
  unfoldable pub requested : StreamCommand D → AnyRequest D
  unfolding Entries.xadd_request Entries.xadd_func_request Entries.xlen_request Entries.xdel_request
      Entries.xtrim_request Entries.xread_request Entries.xread_of_keys_request
      Entries.xinfo_stream_request Entries.xinfo_help_request Groups.xgroup_create_request
      Groups.xgroup_destroy_request Groups.xgroup_delconsumer_request Groups.xack_request
      Groups.xreadgroup_request Groups.xreadgroup_of_keys_request Groups.xinfo_groups_request
      Groups.xinfo_consumers_request Groups.xpending_request
  requested (xadd key entries id) = any (Entries.xadd_request key entries id)
  requested (xadd_func key entries id) = any (Entries.xadd_func_request key entries id)
  requested (xlen key) = any (Entries.xlen_request key)
  requested (xdel key ids) = any (Entries.xdel_request key ids)
  requested (xtrim key maxlen approximate) = any (Entries.xtrim_request key maxlen approximate)
  requested (xread key id count block) = any (Entries.xread_request key id count block)
  requested (xread_of_keys keys ids count block) =
      any (Entries.xread_of_keys_request keys ids count block)
  requested (xinfo_stream key) = any (Entries.xinfo_stream_request key)
  requested xinfo_help = any (Entries.xinfo_help_request)
  requested (xgroup_create key group id mkstream) =
      any (Groups.xgroup_create_request key group id mkstream)
  requested (xgroup_destroy key group) = any (Groups.xgroup_destroy_request key group)
  requested (xgroup_delconsumer key group consumer) =
      any (Groups.xgroup_delconsumer_request key group consumer)
  requested (xack key group ids) = any (Groups.xack_request key group ids)
  requested (xreadgroup key group consumer id count block) =
      any (Groups.xreadgroup_request key group consumer id count block)
  requested (xreadgroup_of_keys keys group consumer ids count block) =
      any (Groups.xreadgroup_of_keys_request keys group consumer ids count block)
  requested (xinfo_groups key) = any (Groups.xinfo_groups_request key)
  requested (xinfo_consumers key group) = any (Groups.xinfo_consumers_request key group)
  requested (xpending key group start last count consumer) =
      any (Groups.xpending_request key group start last count consumer)

  -- The arguments of `put_in_pipe` that the method comes to.
  abbrev pub packed : StreamCommand D → Args D
  packed c = packed_request (requested c)

  -- What the method asks of its arguments.
  abbrev pub HasUniform : StreamCommand D → Type 0
  HasUniform (xdel key ids) = AllUniform ids
  HasUniform (xack key group ids) = AllUniform ids
  HasUniform _ = Unit

  pub packed-AllUniform : (c : StreamCommand D) → HasUniform c → AllUniform (packed c)
  unfolding requested redis_count
  packed-AllUniform (xadd key entries id) u = (tt, (tt, (tt, (pair_list-IsUniform D entries, tt))))
  packed-AllUniform (xadd_func key entries id) u =
      (tt, (tt, (tt, (pair_list-IsUniform D entries, tt))))
  packed-AllUniform (xdel key ids) u = (tt, (tt, u))
  packed-AllUniform (xtrim key maxlen approximate) u =
      (tt, (string_list-IsUniform D (trim_args key maxlen approximate), tt))
  packed-AllUniform (xread key id count block) u =
      (tt, (string_list-IsUniform D (read_args count block), (tt, (tt, (tt, tt)))))
  packed-AllUniform (xread_of_keys keys ids count block) u = (
    tt,
    (
      string_list-IsUniform D (read_args count block),
      (tt, (string_list-IsUniform D keys, (string_list-IsUniform D ids, tt))),
    ),
  )
  packed-AllUniform (xgroup_create key group id mkstream) u =
      (tt, (string_list-IsUniform D (create_args key group id mkstream), tt))
  packed-AllUniform (xack key group ids) u = (tt, (tt, (tt, u)))
  packed-AllUniform (xreadgroup key group consumer id count block) u =
      (tt, (string_list-IsUniform D (group_args group consumer count block), (tt, (tt, (tt, tt)))))
  packed-AllUniform (xreadgroup_of_keys keys group consumer ids count block) u = (
    tt,
    (
      string_list-IsUniform D (group_args group consumer count block),
      (tt, (string_list-IsUniform D keys, (string_list-IsUniform D ids, tt))),
    ),
  )
  packed-AllUniform (xpending key group start last count consumer) u =
      (tt, (string_list-IsUniform D (pending_args key group start last count consumer), tt))
  packed-AllUniform _ u = omega arith

  pub packed-syntax : (c : StreamCommand D) → HasUniform c → words_of (packed c) ≡ syntax c
  unfolding requested words syntax
  packed-syntax (xadd key entries id) u = simp (pair_args-words D, id_or_any-word, append-nil)
  packed-syntax (xadd_func key entries id) u = simp (pair_args-words D, id_or_any-word, append-nil)
  packed-syntax (xtrim key maxlen approximate) u =
      simp (string_args-words D, trim_args-words, append-nil)
  packed-syntax (xread key id count block) u =
      simp (string_args-words D, read_args-words, append_assoc)
  packed-syntax (xread_of_keys keys ids count block) u =
      simp (string_args-words D, read_args-words, append_assoc, append-nil)
  packed-syntax (xgroup_create key group id mkstream) u =
      simp (string_args-words D, create_args-words, append-nil)
  packed-syntax (xreadgroup key group consumer id count block) u =
      simp (string_args-words D, group_args-words)
  packed-syntax (xreadgroup_of_keys keys group consumer ids count block) u =
      simp (string_args-words D, group_args-words, append-nil)
  packed-syntax (xpending key group start last count consumer) u =
      simp (string_args-words D, pending_args-words, append-nil)
  packed-syntax _ u = refl
