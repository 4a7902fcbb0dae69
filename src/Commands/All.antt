-- ===== src/Commands/All.antt =====
-- The command classes that redis.h puts together in `Redis`: any command of any of them.
pub mod Refusals
pub mod Session
use qbm_redis.Base.{◌≡◌, refl, sym, ap, ◌∙◌, List, [], ◌∷◌, some, Bytes, All, map, length}
use qbm_redis.Floating.{Floating}
use qbm_redis.Wire.{Args}
use qbm_redis.Wire.Words.{words_of}
use qbm_redis.Wire.Counting.{AllUniform}
use qbm_redis.Wire.Pipeline.{put_commands, read_requests, put_commands-read}
use qbm_redis.Outcome.{IsCaught}
use qbm_redis.Reply.{RedisReply}
use qbm_redis.Reply.Json.{JsonText}
use qbm_redis.Commands.{AnyRequest, packed_request, parse_request}
use qbm_redis.Commands.Strings.Syntax as StringsSyntax
use qbm_redis.Commands.Strings.Replies as StringsReplies
use qbm_redis.Commands.Lists.Syntax as ListsSyntax
use qbm_redis.Commands.Lists.Replies as ListsReplies
use qbm_redis.Commands.Hashes.Syntax as HashesSyntax
use qbm_redis.Commands.Hashes.Replies as HashesReplies
use qbm_redis.Commands.Sets.Syntax as SetsSyntax
use qbm_redis.Commands.Sets.Replies as SetsReplies
use qbm_redis.Commands.SortedSets.Syntax as SortedSetsSyntax
use qbm_redis.Commands.SortedSets.Requests as SortedSetsRequests
use qbm_redis.Commands.SortedSets.Replies as SortedSetsReplies
use qbm_redis.Commands.Keys.Syntax as KeysSyntax
use qbm_redis.Commands.Keys.Requests as KeysRequests
use qbm_redis.Commands.Keys.Replies as KeysReplies
use qbm_redis.Commands.Values.Syntax as ValuesSyntax
use qbm_redis.Commands.Values.Requests as ValuesRequests
use qbm_redis.Commands.Values.Replies as ValuesReplies
use qbm_redis.Commands.Streams.Syntax as StreamsSyntax
use qbm_redis.Commands.Streams.Requests as StreamsRequests
use qbm_redis.Commands.Streams.Replies as StreamsReplies
use qbm_redis.Commands.Admin.Syntax as AdminSyntax
use qbm_redis.Commands.Admin.Requests as AdminRequests
use qbm_redis.Commands.Admin.Replies as AdminReplies
use qbm_redis.Commands.Transaction.Syntax as TransactionSyntax
use qbm_redis.Commands.Server.Syntax as ServerSyntax
use qbm_redis.Commands.Server.Requests as ServerRequests
use qbm_redis.Commands.Server.Replies as ServerReplies

-- A command that a method asks for. A list of keys or members is any list, also where the documented
-- syntax wants at least one.
pub data AnyCommand (D : Type 0) : Type 0 where
  strings : StringsSyntax.StringCommand D → AnyCommand D
  lists : ListsSyntax.ListCommand D → AnyCommand D
  hashes : HashesSyntax.HashCommand D → AnyCommand D
  sets : SetsSyntax.SetCommand D → AnyCommand D
  sorted_sets : SortedSetsSyntax.SortedSetCommand D → AnyCommand D
  keys : KeysSyntax.KeyCommand D → AnyCommand D
  values : ValuesSyntax.ValueCommand D → AnyCommand D
  streams : StreamsSyntax.StreamCommand D → AnyCommand D
  admin : AdminSyntax.AdminCommand D → AnyCommand D
  server : ServerSyntax.ServerCommand D → AnyCommand D
  transactions : TransactionSyntax.TransactionCommand D → AnyCommand D

module _ {D : Type 0} ⦃F : Floating D⦄ where
  -- The words of the documented syntax, with the lists as they are given.
  unfoldable pub syntax : AnyCommand D → List Bytes
  unfolding StringsSyntax.syntax ListsSyntax.syntax HashesSyntax.syntax SetsSyntax.syntax
      SortedSetsSyntax.syntax KeysSyntax.syntax ValuesSyntax.syntax StreamsSyntax.syntax
      AdminSyntax.syntax ServerSyntax.syntax TransactionSyntax.syntax
  syntax (strings c) = StringsSyntax.syntax c
  syntax (lists c) = ListsSyntax.syntax c
  syntax (hashes c) = HashesSyntax.syntax c
  syntax (sets c) = SetsSyntax.syntax c
  syntax (sorted_sets c) = SortedSetsSyntax.syntax c
  syntax (keys c) = KeysSyntax.syntax c
  syntax (values c) = ValuesSyntax.syntax c
  syntax (streams c) = StreamsSyntax.syntax c
  syntax (admin c) = AdminSyntax.syntax c
  syntax (server c) = ServerSyntax.syntax c
  syntax (transactions c) = TransactionSyntax.syntax c

module _ {D : Type 0} ⦃F : Floating D⦄ ⦃J : JsonText D⦄ where
  unfoldable pub requested : AnyCommand D → AnyRequest D
  unfolding StringsSyntax.requested ListsSyntax.requested HashesSyntax.requested
      SetsSyntax.requested SortedSetsRequests.requested KeysRequests.requested
      ValuesRequests.requested StreamsRequests.requested AdminRequests.requested
      ServerRequests.requested TransactionSyntax.requested
  requested (strings c) = StringsSyntax.requested c
  requested (lists c) = ListsSyntax.requested c
  requested (hashes c) = HashesSyntax.requested c
  requested (sets c) = SetsSyntax.requested c
  requested (sorted_sets c) = SortedSetsRequests.requested c
  requested (keys c) = KeysRequests.requested c
  requested (values c) = ValuesRequests.requested c
  requested (streams c) = StreamsRequests.requested c
  requested (admin c) = AdminRequests.requested c
  requested (server c) = ServerRequests.requested c
  requested (transactions c) = TransactionSyntax.requested c

  abbrev pub packed : AnyCommand D → Args D
  packed c = packed_request (requested c)

  -- What the method asks of its arguments: that the ones of any type are uniform, and that an offset
  -- is not negative.
  abbrev pub HasUniform : AnyCommand D → Type 0
  HasUniform (strings c) = Unit
  HasUniform (lists c) = ListsSyntax.HasUniform c
  HasUniform (hashes c) = HashesSyntax.HasUniform c
  HasUniform (sets c) = SetsSyntax.HasUniform c
  HasUniform (sorted_sets c) = SortedSetsRequests.HasUniform c
  HasUniform (keys c) = KeysRequests.HasUniform c
  HasUniform (values c) = ValuesRequests.HasUniform c
  HasUniform (streams c) = StreamsRequests.HasUniform c
  HasUniform (admin c) = AdminRequests.HasUniform c
  HasUniform (server c) = ServerRequests.HasUniform c
  HasUniform (transactions c) = Unit

  pub packed-AllUniform : (c : AnyCommand D) → HasUniform c → AllUniform (packed c)
  unfolding requested
  packed-AllUniform (strings c) u = StringsSyntax.packed-AllUniform c
  packed-AllUniform (lists c) u = ListsSyntax.packed-AllUniform c u
  packed-AllUniform (hashes c) u = HashesSyntax.packed-AllUniform c u
  packed-AllUniform (sets c) u = SetsSyntax.packed-AllUniform c u
  packed-AllUniform (sorted_sets c) u = SortedSetsRequests.packed-AllUniform c u
  packed-AllUniform (keys c) u = KeysRequests.packed-AllUniform c u
  packed-AllUniform (values c) u = ValuesRequests.packed-AllUniform c u
  packed-AllUniform (streams c) u = StreamsRequests.packed-AllUniform c u
  packed-AllUniform (admin c) u = AdminRequests.packed-AllUniform c u
  packed-AllUniform (server c) u = ServerRequests.packed-AllUniform c u
  packed-AllUniform (transactions c) u = TransactionSyntax.packed-AllUniform c

  pub packed-syntax : (c : AnyCommand D) → HasUniform c → words_of (packed c) ≡ syntax c
  unfolding requested syntax
  packed-syntax (strings c) u = StringsSyntax.packed-syntax c
  packed-syntax (lists c) u = ListsSyntax.packed-syntax c
  packed-syntax (hashes c) u = HashesSyntax.packed-syntax c
  packed-syntax (sets c) u = SetsSyntax.packed-syntax c
  packed-syntax (sorted_sets c) u = SortedSetsRequests.packed-syntax c u
  packed-syntax (keys c) u = KeysRequests.packed-syntax c u
  packed-syntax (values c) u = ValuesRequests.packed-syntax c u
  packed-syntax (streams c) u = StreamsRequests.packed-syntax c u
  packed-syntax (admin c) u = AdminRequests.packed-syntax c u
  packed-syntax (server c) u = ServerRequests.packed-syntax c u
  packed-syntax (transactions c) u = TransactionSyntax.packed-syntax c

  each_packed-AllUniform :
      (cs : List (AnyCommand D)) → All HasUniform cs → All AllUniform (map packed cs)
  each_packed-AllUniform [] u = tt
  each_packed-AllUniform (c ∷ cs) (u, us) = (packed-AllUniform c u, each_packed-AllUniform cs us)

  each_packed-syntax :
      (cs : List (AnyCommand D)) → All HasUniform cs → map words_of (map packed cs) ≡ map syntax cs
  each_packed-syntax [] u = refl
  each_packed-syntax (c ∷ cs) (u, us) = rw (packed-syntax c u, each_packed-syntax cs us)

  length-packed : (cs : List (AnyCommand D)) → length (map packed cs) ≡ length cs
  length-packed [] = refl
  length-packed (c ∷ cs) = rw (length-packed cs)

  -- Commands of any classes, one after the other.
  pub commands-read :
      (cs : List (AnyCommand D))
      → All HasUniform cs
      → read_requests (length cs) (put_commands [] (map packed cs)) ≡ some (map syntax cs, [])
  commands-read cs u =
      ap (λ n. read_requests n (put_commands [] (map packed cs))) (sym (length-packed cs))
      ∙ put_commands-read (map packed cs) (each_packed-AllUniform cs u)
      ∙ ap (λ ws. some (ws, [])) (each_packed-syntax cs u)

  -- The `parse` that a method of these classes asks for gives a value or a `ProtoError`, whatever the
  -- reply is; the results of scripts and of a transaction are read as JSON values. The subscription
  -- commands, which are those of another client, are not among them.
  pub requested-IsCaught :
      (c : AnyCommand D) (r : RedisReply) → IsCaught (parse_request (requested c) r)
  unfolding requested
  requested-IsCaught (strings c) r = StringsReplies.requested-IsCaught c r
  requested-IsCaught (lists c) r = ListsReplies.requested-IsCaught c r
  requested-IsCaught (hashes c) r = HashesReplies.requested-IsCaught c r
  requested-IsCaught (sets c) r = SetsReplies.requested-IsCaught c r
  requested-IsCaught (sorted_sets c) r = SortedSetsReplies.requested-IsCaught c r
  requested-IsCaught (keys c) r = KeysReplies.requested-IsCaught c r
  requested-IsCaught (values c) r = ValuesReplies.requested-IsCaught c r
  requested-IsCaught (streams c) r = StreamsReplies.requested-IsCaught c r
  requested-IsCaught (admin c) r = AdminReplies.requested-IsCaught c r
  requested-IsCaught (server c) r = ServerReplies.requested-IsCaught c r
  requested-IsCaught (transactions c) r = TransactionSyntax.requested-IsCaught c r
