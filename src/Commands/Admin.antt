-- ===== src/Commands/Admin.antt =====
-- connection_commands.h, publish_commands.h, scripting_commands.h, acl_commands.h,
-- function_commands.h, module_commands.h, cluster_commands.h: the commands that manage a connection
-- and a server. `x_request` is the command that the method `x` asks for.
pub mod Connection
pub mod Publishing
pub mod Scripting
pub mod Acl
pub mod Functions
pub mod Loading
pub mod Cluster
pub mod Syntax
pub mod Requests
pub mod Replies
use qbm_redis.Base.{Option, none, some, Bytes, codes}
use qbm_redis.Wire.{literal, str, Args, end, arg}

module _ {D : Type 0} where
  -- What function_list sends behind LIST: a library, where there is one.
  unfoldable pub library_args : Option Bytes → Args D
  unfolding codes
  library_args none = end
  library_args (some library) = arg (literal (codes "LIBRARYNAME")) (arg (str library) end)
