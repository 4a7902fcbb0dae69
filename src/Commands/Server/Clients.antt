-- ===== src/Commands/Server/Clients.antt =====
-- server_commands.h: the commands on clients. `client_unblock_func_request` is what the overload of
-- client_unblock with a callback asks for.
use qbm_redis.Base.{Bool, false, [], ◌∷◌, ◌++◌, Option, some, Bytes, codes, if◌then◌else◌}
use qbm_redis.Base.Int.{ℤ}
use qbm_redis.Decimal.{to_string}
use qbm_redis.Floating.{Floating}
use qbm_redis.Types.{Status}
use qbm_redis.Outcome.{Outcome, ok, throw}
use qbm_redis.Reply.Scalars.{parse_status}
use qbm_redis.Reply.Json.{Json, JsonText, parse_json}
use qbm_redis.Commands.{Request, args_1, args_2, args_3}
use qbm_redis.Commands.Arguments.{string_args, parse_optional_string}
use qbm_redis.Wire.{literal, c_str, str, number, container}
use qbm_redis.Commands.Server.{kill_args, unblock_args, on_off}

module _ {D : Type 0} where
  -- The overload that waits: `ERROR` is added where `error` does not hold.
  unfoldable pub client_unblock_request : ℤ → Bool → Request D Status
  unfolding string_args codes
  client_unblock_request client_id error = record {
    name = codes "CLIENT";
    args = args_1 (
        container (
          string_args (
            if error
            then codes "UNBLOCK" ∷ to_string client_id ∷ []
            else (codes "UNBLOCK" ∷ to_string client_id ∷ []) ++ codes "ERROR" ∷ [])));
    parse = parse_status;
  }

-- What the overload that waits returns, where `error` does not hold also if its command throws.
unfoldable pub client_unblock_result : Bool → Outcome Status → Outcome Status
client_unblock_result false (throw x) = ok (record { str = [] })
client_unblock_result _ o = o

module _ {D : Type 0} where
  unfoldable pub client_kill_request : Bytes → ℤ → Bytes → Bool → Request D Status
  unfolding string_args kill_args
  client_kill_request addr id type skipme = record {
    name = codes "CLIENT";
    args =
        args_2 (literal (codes "KILL")) (container (string_args (kill_args addr id type skipme)));
    parse = parse_status;
  }

  unfoldable pub client_getname_request : Request D (Option Bytes)
  client_getname_request = record {
    name = codes "CLIENT";
    args = args_1 (literal (codes "GETNAME"));
    parse = parse_optional_string;
  }

  unfoldable pub client_setname_request : Bytes → Request D Status
  client_setname_request name = record {
    name = codes "CLIENT";
    args = args_2 (literal (codes "SETNAME")) (str name);
    parse = parse_status;
  }

  unfoldable pub client_pause_request : ℤ → Bytes → Request D Status
  client_pause_request timeout mode = record {
    name = codes "CLIENT";
    args = args_3 (literal (codes "PAUSE")) (number timeout) (str mode);
    parse = parse_status;
  }

  unfoldable pub client_tracking_request : Bool → Request D Status
  unfolding on_off
  client_tracking_request enabled = record {
    name = codes "CLIENT";
    args = args_2 (literal (codes "TRACKING")) (c_str (some (on_off enabled)));
    parse = parse_status;
  }

  unfoldable pub client_unblock_func_request : ℤ → Bool → Request D Status
  unfolding string_args unblock_args
  client_unblock_func_request client_id error = record {
    name = codes "CLIENT";
    args = args_1 (container (string_args (unblock_args client_id error)));
    parse = parse_status;
  }

module _ {D : Type 0} ⦃F : Floating D⦄ ⦃J : JsonText D⦄ where
  unfoldable pub client_list_request : Request D (Json D)
  client_list_request = record {
    name = codes "CLIENT";
    args = args_1 (literal (codes "LIST"));
    parse = parse_json;
  }

  unfoldable pub client_tracking_info_request : Request D (Json D)
  client_tracking_info_request = record {
    name = codes "CLIENT";
    args = args_2 (literal (codes "TRACKING")) (literal (codes "INFO"));
    parse = parse_json;
  }
