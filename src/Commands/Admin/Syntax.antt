-- ===== src/Commands/Admin/Syntax.antt =====
-- connection_commands.h, publish_commands.h, scripting_commands.h, acl_commands.h,
-- function_commands.h, module_commands.h, cluster_commands.h: the commands against the syntax that
-- the server documents.
use qbm_redis.Base.{not, List, [], ◌∷◌, ◌++◌, Option, none, some, Bytes, codes, length, is_empty}
use qbm_redis.Base.Int.{ℤ, pos}
use qbm_redis.Decimal.{to_string}
use qbm_redis.Floating.{Floating}
use qbm_redis.Wire.{Args}
use qbm_redis.Wire.Words.{words_of}
use qbm_redis.Commands.Arguments.Laws.{number_words, when}

-- A call of a method, with its arguments; `eval` and `evalsha` with a JSON value for their result.
pub data AdminCommand (D : Type 0) : Type 0 where
  auth : Bytes → AdminCommand D
  auth_with_user : Bytes → Bytes → AdminCommand D
  echo : Bytes → AdminCommand D
  ping : AdminCommand D
  ping_with_message : Bytes → AdminCommand D
  quit : AdminCommand D
  select : ℤ → AdminCommand D
  swapdb : ℤ → ℤ → AdminCommand D
  publish : Bytes → Bytes → AdminCommand D
  eval : Bytes → List Bytes → List Bytes → AdminCommand D
  evalsha : Bytes → List Bytes → List Bytes → AdminCommand D
  script_exists : Args D → AdminCommand D
  script_flush : AdminCommand D
  script_kill : AdminCommand D
  script_load : Bytes → AdminCommand D
  acl_list : AdminCommand D
  acl_log : Option ℤ → AdminCommand D
  acl_cat : Bytes → AdminCommand D
  acl_getuser : Bytes → AdminCommand D
  acl_users : AdminCommand D
  acl_whoami : AdminCommand D
  acl_help : AdminCommand D
  acl_deluser : Bytes → AdminCommand D
  acl_genpass : Option ℤ → AdminCommand D
  acl_load : AdminCommand D
  acl_save : AdminCommand D
  acl_setuser : Bytes → Args D → AdminCommand D
  function_list : Option Bytes → AdminCommand D
  function_load : Bytes → Args D → AdminCommand D
  function_delete : Bytes → AdminCommand D
  function_flush : Bytes → AdminCommand D
  function_kill : AdminCommand D
  function_stats : AdminCommand D
  function_dump : AdminCommand D
  function_help : AdminCommand D
  module_list : AdminCommand D
  module_load : Bytes → Args D → AdminCommand D
  module_unload : Bytes → AdminCommand D
  module_help : AdminCommand D
  cluster_info : AdminCommand D
  cluster_nodes : AdminCommand D
  cluster_slots : AdminCommand D
  cluster_meet : Bytes → ℤ → AdminCommand D
  cluster_forget : Bytes → AdminCommand D
  cluster_reset : Bytes → AdminCommand D
  cluster_failover : Bytes → AdminCommand D
  cluster_replicate : Bytes → AdminCommand D
  cluster_saveconfig : AdminCommand D
  cluster_set_config_epoch : ℤ → AdminCommand D
  cluster_bumpepoch : AdminCommand D
  cluster_myid : AdminCommand D
  cluster_keyslot : Bytes → AdminCommand D
  cluster_countkeysinslot : ℤ → AdminCommand D
  cluster_getkeysinslot : ℤ → ℤ → AdminCommand D

unfoldable pub library_words : Option Bytes → List Bytes
library_words none = []
library_words (some library) = codes "LIBRARYNAME" ∷ library ∷ []

module _ {D : Type 0} ⦃F : Floating D⦄ where
  -- The words of the documented syntax.
  unfoldable pub syntax : AdminCommand D → List Bytes
  unfolding words_of when number_words library_words
  syntax (auth password) = codes "AUTH" ∷ password ∷ []
  syntax (auth_with_user user password) = codes "AUTH" ∷ user ∷ password ∷ []
  syntax (echo message) = codes "ECHO" ∷ message ∷ []
  syntax ping = codes "PING" ∷ []
  syntax (ping_with_message message) = codes "PING" ∷ message ∷ []
  syntax quit = codes "QUIT" ∷ []
  syntax (select index) = codes "SELECT" ∷ to_string index ∷ []
  syntax (swapdb index1 index2) = codes "SWAPDB" ∷ to_string index1 ∷ to_string index2 ∷ []
  syntax (publish channel message) = codes "PUBLISH" ∷ channel ∷ message ∷ []
  syntax (eval script keys args) =
      codes "EVAL" ∷ script ∷ to_string (pos (length keys)) ∷ (keys ++ args)
  syntax (evalsha script keys args) =
      codes "EVALSHA" ∷ script ∷ to_string (pos (length keys)) ∷ (keys ++ args)
  syntax (script_exists keys) = codes "SCRIPT" ∷ codes "EXISTS" ∷ words_of keys
  syntax script_flush = codes "SCRIPT" ∷ codes "FLUSH" ∷ []
  syntax script_kill = codes "SCRIPT" ∷ codes "KILL" ∷ []
  syntax (script_load script) = codes "SCRIPT" ∷ codes "LOAD" ∷ script ∷ []
  syntax acl_list = codes "ACL" ∷ codes "LIST" ∷ []
  syntax (acl_log count) = codes "ACL" ∷ codes "LOG" ∷ number_words count
  syntax (acl_cat category) = codes "ACL" ∷ codes "CAT" ∷ when (not (is_empty category)) category
  syntax (acl_getuser username) = codes "ACL" ∷ codes "GETUSER" ∷ username ∷ []
  syntax acl_users = codes "ACL" ∷ codes "USERS" ∷ []
  syntax acl_whoami = codes "ACL" ∷ codes "WHOAMI" ∷ []
  syntax acl_help = codes "ACL" ∷ codes "HELP" ∷ []
  syntax (acl_deluser username) = codes "ACL" ∷ codes "DELUSER" ∷ username ∷ []
  syntax (acl_genpass bits) = codes "ACL" ∷ codes "GENPASS" ∷ number_words bits
  syntax acl_load = codes "ACL" ∷ codes "LOAD" ∷ []
  syntax acl_save = codes "ACL" ∷ codes "SAVE" ∷ []
  syntax (acl_setuser username rules) = codes "ACL" ∷ codes "SETUSER" ∷ username ∷ words_of rules
  syntax (function_list library) = codes "FUNCTION" ∷ codes "LIST" ∷ library_words library
  syntax (function_load code options) =
      codes "FUNCTION" ∷ codes "LOAD" ∷ words_of options ++ code ∷ []
  syntax (function_delete library) = codes "FUNCTION" ∷ codes "DELETE" ∷ library ∷ []
  syntax (function_flush mode) = codes "FUNCTION" ∷ codes "FLUSH" ∷ mode ∷ []
  syntax function_kill = codes "FUNCTION" ∷ codes "KILL" ∷ []
  syntax function_stats = codes "FUNCTION" ∷ codes "STATS" ∷ []
  syntax function_dump = codes "FUNCTION" ∷ codes "DUMP" ∷ []
  syntax function_help = codes "FUNCTION" ∷ codes "HELP" ∷ []
  syntax module_list = codes "MODULE" ∷ codes "LIST" ∷ []
  syntax (module_load path args) = codes "MODULE" ∷ codes "LOAD" ∷ path ∷ words_of args
  syntax (module_unload name) = codes "MODULE" ∷ codes "UNLOAD" ∷ name ∷ []
  syntax module_help = codes "MODULE" ∷ codes "HELP" ∷ []
  syntax cluster_info = codes "CLUSTER" ∷ codes "INFO" ∷ []
  syntax cluster_nodes = codes "CLUSTER" ∷ codes "NODES" ∷ []
  syntax cluster_slots = codes "CLUSTER" ∷ codes "SLOTS" ∷ []
  syntax (cluster_meet ip port) = codes "CLUSTER" ∷ codes "MEET" ∷ ip ∷ to_string port ∷ []
  syntax (cluster_forget node_id) = codes "CLUSTER" ∷ codes "FORGET" ∷ node_id ∷ []
  syntax (cluster_reset mode) = codes "CLUSTER" ∷ codes "RESET" ∷ mode ∷ []
  syntax (cluster_failover option) =
      codes "CLUSTER" ∷ codes "FAILOVER" ∷ when (not (is_empty option)) option
  syntax (cluster_replicate node_id) = codes "CLUSTER" ∷ codes "REPLICATE" ∷ node_id ∷ []
  syntax cluster_saveconfig = codes "CLUSTER" ∷ codes "SAVECONFIG" ∷ []
  syntax (cluster_set_config_epoch epoch) =
      codes "CLUSTER" ∷ codes "SET-CONFIG-EPOCH" ∷ to_string epoch ∷ []
  syntax cluster_bumpepoch = codes "CLUSTER" ∷ codes "BUMPEPOCH" ∷ []
  syntax cluster_myid = codes "CLUSTER" ∷ codes "MYID" ∷ []
  syntax (cluster_keyslot key) = codes "CLUSTER" ∷ codes "KEYSLOT" ∷ key ∷ []
  syntax (cluster_countkeysinslot slot) =
      codes "CLUSTER" ∷ codes "COUNTKEYSINSLOT" ∷ to_string slot ∷ []
  syntax (cluster_getkeysinslot slot count) =
      codes "CLUSTER" ∷ codes "GETKEYSINSLOT" ∷ to_string slot ∷ to_string count ∷ []
