-- ===== src/Commands/Admin/Requests.antt =====
-- connection_commands.h, publish_commands.h, scripting_commands.h, acl_commands.h,
-- function_commands.h, module_commands.h, cluster_commands.h: the requests of all methods.
use qbm_redis.Base.{◌≡◌, refl, ap, ◌∷◌, append-nil, Option, none, some, Bytes, codes, arith}
use qbm_redis.Floating.{Floating}
use qbm_redis.Reply.Json.{JsonText, parse_json}
use qbm_redis.Commands.{AnyRequest, any, packed_request}
use qbm_redis.Wire.{str, Args, end, arg, redis_count}
use qbm_redis.Commands.Admin.{library_args}
use qbm_redis.Commands.Admin.Connection
use qbm_redis.Commands.Admin.Publishing
use qbm_redis.Commands.Admin.Scripting
use qbm_redis.Commands.Admin.Acl
use qbm_redis.Commands.Admin.Functions
use qbm_redis.Commands.Admin.Loading
use qbm_redis.Commands.Admin.Cluster
use qbm_redis.Wire.Words.{words, words_of}
use qbm_redis.Wire.Counting.{AllUniform}
use qbm_redis.Commands.Arguments.Laws.{
  append_args-words, append_args-AllUniform, number_args-AllUniform, number_args-words,
  nonempty_args-AllUniform, nonempty_args-words, string_list-IsUniform, string_args-words,
}
use qbm_redis.Commands.Admin.Syntax.{
  AdminCommand, auth, auth_with_user, echo, ping, ping_with_message, quit, select, swapdb, publish,
  eval, evalsha, script_exists, script_flush, script_kill, script_load, acl_list, acl_log, acl_cat,
  acl_getuser, acl_users, acl_whoami, acl_help, acl_deluser, acl_genpass, acl_load, acl_save,
  acl_setuser, function_list, function_load, function_delete, function_flush, function_kill,
  function_stats, function_dump, function_help, module_list, module_load, module_unload,
  module_help, cluster_info, cluster_nodes, cluster_slots, cluster_meet, cluster_forget,
  cluster_reset, cluster_failover, cluster_replicate, cluster_saveconfig, cluster_set_config_epoch,
  cluster_bumpepoch, cluster_myid, cluster_keyslot, cluster_countkeysinslot, cluster_getkeysinslot,
  syntax, library_words,
}

module _ (D : Type 0) where
  library_args-AllUniform : (o : Option Bytes) → AllUniform {D = D} (library_args o)
  unfolding library_args
  library_args-AllUniform none = tt
  library_args-AllUniform (some s) = (tt, (tt, tt))

module _ (D : Type 0) ⦃F : Floating D⦄ where
  library_args-words : (o : Option Bytes) → words_of {D = D} (library_args o) ≡ library_words o
  unfolding words library_args library_words
  library_args-words none = refl
  library_args-words (some s) = refl

module _ {D : Type 0} ⦃F : Floating D⦄ ⦃J : JsonText D⦄ where
  -- The request of the method.
  unfoldable pub requested : AdminCommand D → AnyRequest D
  unfolding Connection.auth_request Connection.auth_with_user_request Connection.echo_request
      Connection.ping_request Connection.ping_with_message_request Connection.quit_request
      Connection.select_request Connection.swapdb_request Publishing.publish_request
      Scripting.eval_request Scripting.evalsha_request Scripting.script_exists_request
      Scripting.script_flush_request Scripting.script_kill_request Scripting.script_load_request
      Acl.acl_list_request Acl.acl_log_request Acl.acl_cat_request Acl.acl_getuser_request
      Acl.acl_users_request Acl.acl_whoami_request Acl.acl_help_request Acl.acl_deluser_request
      Acl.acl_genpass_request Acl.acl_load_request Acl.acl_save_request Acl.acl_setuser_request
      Functions.function_list_request Functions.function_load_request
      Functions.function_delete_request Functions.function_flush_request
      Functions.function_kill_request Functions.function_stats_request
      Functions.function_dump_request Functions.function_help_request Loading.module_list_request
      Loading.module_load_request Loading.module_unload_request Loading.module_help_request
      Cluster.cluster_info_request Cluster.cluster_nodes_request Cluster.cluster_slots_request
      Cluster.cluster_meet_request Cluster.cluster_forget_request Cluster.cluster_reset_request
      Cluster.cluster_failover_request Cluster.cluster_replicate_request
      Cluster.cluster_saveconfig_request Cluster.cluster_set_config_epoch_request
      Cluster.cluster_bumpepoch_request Cluster.cluster_myid_request Cluster.cluster_keyslot_request
      Cluster.cluster_countkeysinslot_request Cluster.cluster_getkeysinslot_request
  requested (auth password) = any (Connection.auth_request password)
  requested (auth_with_user user password) = any (Connection.auth_with_user_request user password)
  requested (echo message) = any (Connection.echo_request message)
  requested ping = any (Connection.ping_request)
  requested (ping_with_message message) = any (Connection.ping_with_message_request message)
  requested quit = any (Connection.quit_request)
  requested (select index) = any (Connection.select_request index)
  requested (swapdb index1 index2) = any (Connection.swapdb_request index1 index2)
  requested (publish channel message) = any (Publishing.publish_request channel message)
  requested (eval script keys args) =
      any (Scripting.eval_request (parse_json {D = D}) script keys args)
  requested (evalsha script keys args) =
      any (Scripting.evalsha_request (parse_json {D = D}) script keys args)
  requested (script_exists keys) = any (Scripting.script_exists_request keys)
  requested script_flush = any (Scripting.script_flush_request)
  requested script_kill = any (Scripting.script_kill_request)
  requested (script_load script) = any (Scripting.script_load_request script)
  requested acl_list = any (Acl.acl_list_request)
  requested (acl_log count) = any (Acl.acl_log_request count)
  requested (acl_cat category) = any (Acl.acl_cat_request category)
  requested (acl_getuser username) = any (Acl.acl_getuser_request username)
  requested acl_users = any (Acl.acl_users_request)
  requested acl_whoami = any (Acl.acl_whoami_request)
  requested acl_help = any (Acl.acl_help_request)
  requested (acl_deluser username) = any (Acl.acl_deluser_request username)
  requested (acl_genpass bits) = any (Acl.acl_genpass_request bits)
  requested acl_load = any (Acl.acl_load_request)
  requested acl_save = any (Acl.acl_save_request)
  requested (acl_setuser username rules) = any (Acl.acl_setuser_request username rules)
  requested (function_list library) = any (Functions.function_list_request library)
  requested (function_load code options) = any (Functions.function_load_request code options)
  requested (function_delete library) = any (Functions.function_delete_request library)
  requested (function_flush mode) = any (Functions.function_flush_request mode)
  requested function_kill = any (Functions.function_kill_request)
  requested function_stats = any (Functions.function_stats_request)
  requested function_dump = any (Functions.function_dump_request)
  requested function_help = any (Functions.function_help_request)
  requested module_list = any (Loading.module_list_request)
  requested (module_load path args) = any (Loading.module_load_request path args)
  requested (module_unload name) = any (Loading.module_unload_request name)
  requested module_help = any (Loading.module_help_request)
  requested cluster_info = any (Cluster.cluster_info_request)
  requested cluster_nodes = any (Cluster.cluster_nodes_request)
  requested cluster_slots = any (Cluster.cluster_slots_request)
  requested (cluster_meet ip port) = any (Cluster.cluster_meet_request ip port)
  requested (cluster_forget node_id) = any (Cluster.cluster_forget_request node_id)
  requested (cluster_reset mode) = any (Cluster.cluster_reset_request mode)
  requested (cluster_failover option) = any (Cluster.cluster_failover_request option)
  requested (cluster_replicate node_id) = any (Cluster.cluster_replicate_request node_id)
  requested cluster_saveconfig = any (Cluster.cluster_saveconfig_request)
  requested (cluster_set_config_epoch epoch) = any (Cluster.cluster_set_config_epoch_request epoch)
  requested cluster_bumpepoch = any (Cluster.cluster_bumpepoch_request)
  requested cluster_myid = any (Cluster.cluster_myid_request)
  requested (cluster_keyslot key) = any (Cluster.cluster_keyslot_request key)
  requested (cluster_countkeysinslot slot) = any (Cluster.cluster_countkeysinslot_request slot)
  requested (cluster_getkeysinslot slot count) =
      any (Cluster.cluster_getkeysinslot_request slot count)

  -- The arguments of `put_in_pipe` that the method comes to.
  abbrev pub packed : AdminCommand D → Args D
  packed c = packed_request (requested c)

  -- What the method asks of its arguments.
  abbrev pub HasUniform : AdminCommand D → Type 0
  HasUniform (script_exists keys) = AllUniform keys
  HasUniform (acl_setuser username rules) = AllUniform rules
  HasUniform (function_load code options) = AllUniform options
  HasUniform (module_load path args) = AllUniform args
  HasUniform _ = Unit

  pub packed-AllUniform : (c : AdminCommand D) → HasUniform c → AllUniform (packed c)
  unfolding requested redis_count
  packed-AllUniform (eval script keys args) u =
      (tt, (tt, (tt, (string_list-IsUniform D keys, (string_list-IsUniform D args, tt)))))
  packed-AllUniform (evalsha script keys args) u =
      (tt, (tt, (tt, (string_list-IsUniform D keys, (string_list-IsUniform D args, tt)))))
  packed-AllUniform (script_exists keys) u = (tt, (tt, u))
  packed-AllUniform (acl_log count) u = (tt, (tt, number_args-AllUniform D count))
  packed-AllUniform (acl_cat category) u = (tt, (tt, nonempty_args-AllUniform D category))
  packed-AllUniform (acl_genpass bits) u = (tt, (tt, number_args-AllUniform D bits))
  packed-AllUniform (acl_setuser username rules) u = (tt, (tt, (tt, u)))
  packed-AllUniform (function_list library) u = (tt, (tt, library_args-AllUniform D library))
  packed-AllUniform (function_load code options) u =
      (tt, (tt, (append_args-AllUniform options (arg (str code) end) u (tt, tt))))
  packed-AllUniform (module_load path args) u = (tt, (tt, (tt, u)))
  packed-AllUniform (cluster_failover option) u = (tt, (tt, nonempty_args-AllUniform D option))
  packed-AllUniform _ u = omega arith

  pub packed-syntax : (c : AdminCommand D) → HasUniform c → words_of (packed c) ≡ syntax c
  unfolding requested words syntax
  packed-syntax (eval script keys args) u = simp (string_args-words D, append-nil)
  packed-syntax (evalsha script keys args) u = simp (string_args-words D, append-nil)
  packed-syntax (acl_log count) u = simp (number_args-words D count)
  packed-syntax (acl_cat category) u = simp (nonempty_args-words D category)
  packed-syntax (acl_genpass bits) u = simp (number_args-words D bits)
  packed-syntax (function_list library) u = simp (library_args-words D library)
  packed-syntax (function_load code options) u =
      ap (λ ws. codes "FUNCTION" ∷ codes "LOAD" ∷ ws)
        (append_args-words options (arg (str code) end))
  packed-syntax (cluster_failover option) u = simp (nonempty_args-words D option)
  packed-syntax _ u = refl
