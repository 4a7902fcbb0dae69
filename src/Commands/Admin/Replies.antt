-- ===== src/Commands/Admin/Replies.antt =====
-- connection_commands.h, publish_commands.h, scripting_commands.h, acl_commands.h,
-- function_commands.h, module_commands.h, cluster_commands.h: what the `parse` of each method
-- throws.
use qbm_redis.Floating.{Floating}
use qbm_redis.Outcome.{IsCaught}
use qbm_redis.Reply.{RedisReply}
use qbm_redis.Reply.Scalars.{parse_string, parse_bool}
use qbm_redis.Reply.Json.{JsonText}
use qbm_redis.Commands.{parse_request}
use qbm_redis.Reply.Scalars.Laws.{
  parse_string-IsCaught, parse_long_long-IsCaught, parse_bool-IsCaught, parse_status-IsCaught,
}
use qbm_redis.Reply.Containers.Laws.{parse_sequence-Caught}
use qbm_redis.Reply.Json.Laws.{parse_json-IsCaught}
use qbm_redis.Commands.Admin.Syntax.{
  AdminCommand, auth, auth_with_user, echo, ping, ping_with_message, quit, select, swapdb, publish,
  eval, evalsha, script_exists, script_flush, script_kill, script_load, acl_list, acl_log, acl_cat,
  acl_getuser, acl_users, acl_whoami, acl_help, acl_deluser, acl_genpass, acl_load, acl_save,
  acl_setuser, function_list, function_load, function_delete, function_flush, function_kill,
  function_stats, function_dump, function_help, module_list, module_load, module_unload,
  module_help, cluster_info, cluster_nodes, cluster_slots, cluster_meet, cluster_forget,
  cluster_reset, cluster_failover, cluster_replicate, cluster_saveconfig, cluster_set_config_epoch,
  cluster_bumpepoch, cluster_myid, cluster_keyslot, cluster_countkeysinslot, cluster_getkeysinslot,
}
use qbm_redis.Commands.Admin.Requests.{requested}

module _ {D : Type 0} ⦃F : Floating D⦄ ⦃J : JsonText D⦄ where
  -- The `parse` of every method gives a value or a `ProtoError`.
  pub requested-IsCaught :
      (c : AdminCommand D) (r : RedisReply) → IsCaught (parse_request (requested c) r)
  unfolding requested
  requested-IsCaught (auth password) r = parse_status-IsCaught r
  requested-IsCaught (auth_with_user user password) r = parse_status-IsCaught r
  requested-IsCaught (echo message) r = parse_string-IsCaught r
  requested-IsCaught ping r = parse_string-IsCaught r
  requested-IsCaught (ping_with_message message) r = parse_string-IsCaught r
  requested-IsCaught quit r = parse_status-IsCaught r
  requested-IsCaught (select index) r = parse_status-IsCaught r
  requested-IsCaught (swapdb index1 index2) r = parse_status-IsCaught r
  requested-IsCaught (publish channel message) r = parse_long_long-IsCaught r
  requested-IsCaught (eval script keys args) r = parse_json-IsCaught D r
  requested-IsCaught (evalsha script keys args) r = parse_json-IsCaught D r
  requested-IsCaught (script_exists keys) r = parse_sequence-Caught parse_bool parse_bool-IsCaught r
  requested-IsCaught script_flush r = parse_status-IsCaught r
  requested-IsCaught script_kill r = parse_status-IsCaught r
  requested-IsCaught (script_load script) r = parse_string-IsCaught r
  requested-IsCaught acl_list r = parse_json-IsCaught D r
  requested-IsCaught (acl_log count) r = parse_json-IsCaught D r
  requested-IsCaught (acl_cat category) r =
      parse_sequence-Caught parse_string parse_string-IsCaught r
  requested-IsCaught (acl_getuser username) r = parse_json-IsCaught D r
  requested-IsCaught acl_users r = parse_sequence-Caught parse_string parse_string-IsCaught r
  requested-IsCaught acl_whoami r = parse_string-IsCaught r
  requested-IsCaught acl_help r = parse_sequence-Caught parse_string parse_string-IsCaught r
  requested-IsCaught (acl_deluser username) r = parse_long_long-IsCaught r
  requested-IsCaught (acl_genpass bits) r = parse_string-IsCaught r
  requested-IsCaught acl_load r = parse_status-IsCaught r
  requested-IsCaught acl_save r = parse_status-IsCaught r
  requested-IsCaught (acl_setuser username rules) r = parse_status-IsCaught r
  requested-IsCaught (function_list library) r = parse_json-IsCaught D r
  requested-IsCaught (function_load code options) r = parse_status-IsCaught r
  requested-IsCaught (function_delete library) r = parse_status-IsCaught r
  requested-IsCaught (function_flush mode) r = parse_status-IsCaught r
  requested-IsCaught function_kill r = parse_status-IsCaught r
  requested-IsCaught function_stats r = parse_json-IsCaught D r
  requested-IsCaught function_dump r = parse_json-IsCaught D r
  requested-IsCaught function_help r = parse_sequence-Caught parse_string parse_string-IsCaught r
  requested-IsCaught module_list r = parse_json-IsCaught D r
  requested-IsCaught (module_load path args) r = parse_status-IsCaught r
  requested-IsCaught (module_unload name) r = parse_status-IsCaught r
  requested-IsCaught module_help r = parse_sequence-Caught parse_string parse_string-IsCaught r
  requested-IsCaught cluster_info r = parse_json-IsCaught D r
  requested-IsCaught cluster_nodes r = parse_json-IsCaught D r
  requested-IsCaught cluster_slots r = parse_json-IsCaught D r
  requested-IsCaught (cluster_meet ip port) r = parse_status-IsCaught r
  requested-IsCaught (cluster_forget node_id) r = parse_status-IsCaught r
  requested-IsCaught (cluster_reset mode) r = parse_status-IsCaught r
  requested-IsCaught (cluster_failover option) r = parse_status-IsCaught r
  requested-IsCaught (cluster_replicate node_id) r = parse_status-IsCaught r
  requested-IsCaught cluster_saveconfig r = parse_status-IsCaught r
  requested-IsCaught (cluster_set_config_epoch epoch) r = parse_status-IsCaught r
  requested-IsCaught cluster_bumpepoch r = parse_status-IsCaught r
  requested-IsCaught cluster_myid r = parse_string-IsCaught r
  requested-IsCaught (cluster_keyslot key) r = parse_long_long-IsCaught r
  requested-IsCaught (cluster_countkeysinslot slot) r = parse_long_long-IsCaught r
  requested-IsCaught (cluster_getkeysinslot slot count) r =
      parse_sequence-Caught parse_string parse_string-IsCaught r
