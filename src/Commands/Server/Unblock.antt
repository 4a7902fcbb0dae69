-- ===== src/Commands/Server/Unblock.antt =====
-- server_commands.h, client_unblock: the two overloads against each other.
use qbm_redis.Base.{◌≡◌, refl, Bool, true, false, not}
use qbm_redis.Base.Int.{ℤ}
use qbm_redis.Commands.Arguments.{push_if}
use qbm_redis.Commands.Server.{unblock_args}
use qbm_redis.Commands.Server.Clients.{client_unblock_request, client_unblock_func_request}

-- The overload of client_unblock that waits asks for exactly the command that the overload with a
-- callback asks for with the other value of `error`.
pub client_unblock-inverted :
    (D : Type 0) (client_id : ℤ) (error : Bool)
    → client_unblock_request {D = D} client_id error
      ≡ client_unblock_func_request client_id (not error)
unfolding client_unblock_request client_unblock_func_request unblock_args push_if
client_unblock-inverted D client_id true = refl
client_unblock-inverted D client_id false = refl
