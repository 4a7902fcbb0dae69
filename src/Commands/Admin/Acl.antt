-- ===== src/Commands/Admin/Acl.antt =====
-- acl_commands.h: the commands on access control lists.
use qbm_redis.Base.{List, Option, Bytes, codes}
use qbm_redis.Base.Int.{ℤ}
use qbm_redis.Floating.{Floating}
use qbm_redis.Types.{Status}
use qbm_redis.Reply.Scalars.{parse_string, parse_long_long, parse_status}
use qbm_redis.Reply.Json.{Json, JsonText, parse_json}
use qbm_redis.Reply.Containers.{parse_sequence}
use qbm_redis.Commands.{Request, args_1, args_2}
use qbm_redis.Commands.Arguments.{number_args, nonempty_args}
use qbm_redis.Wire.{literal, str, Args, arg}

module _ {D : Type 0} ⦃F : Floating D⦄ ⦃J : JsonText D⦄ where
  unfoldable pub acl_list_request : Request D (Json D)
  acl_list_request = record {
    name = codes "ACL";
    args = args_1 (literal (codes "LIST"));
    parse = parse_json;
  }

  unfoldable pub acl_log_request : Option ℤ → Request D (Json D)
  unfolding number_args
  acl_log_request count = record {
    name = codes "ACL";
    args = arg (literal (codes "LOG")) (number_args count);
    parse = parse_json;
  }

module _ {D : Type 0} where
  unfoldable pub acl_cat_request : Bytes → Request D (List Bytes)
  unfolding nonempty_args
  acl_cat_request category = record {
    name = codes "ACL";
    args = arg (literal (codes "CAT")) (nonempty_args category);
    parse = parse_sequence parse_string;
  }

module _ {D : Type 0} ⦃F : Floating D⦄ ⦃J : JsonText D⦄ where
  unfoldable pub acl_getuser_request : Bytes → Request D (Json D)
  acl_getuser_request username = record {
    name = codes "ACL";
    args = args_2 (literal (codes "GETUSER")) (str username);
    parse = parse_json;
  }

module _ {D : Type 0} where
  unfoldable pub acl_users_request : Request D (List Bytes)
  acl_users_request = record {
    name = codes "ACL";
    args = args_1 (literal (codes "USERS"));
    parse = parse_sequence parse_string;
  }

  unfoldable pub acl_whoami_request : Request D Bytes
  acl_whoami_request = record {
    name = codes "ACL";
    args = args_1 (literal (codes "WHOAMI"));
    parse = parse_string;
  }

  unfoldable pub acl_help_request : Request D (List Bytes)
  acl_help_request = record {
    name = codes "ACL";
    args = args_1 (literal (codes "HELP"));
    parse = parse_sequence parse_string;
  }

  unfoldable pub acl_deluser_request : Bytes → Request D ℤ
  acl_deluser_request username = record {
    name = codes "ACL";
    args = args_2 (literal (codes "DELUSER")) (str username);
    parse = parse_long_long;
  }

  unfoldable pub acl_genpass_request : Option ℤ → Request D Bytes
  unfolding number_args
  acl_genpass_request bits = record {
    name = codes "ACL";
    args = arg (literal (codes "GENPASS")) (number_args bits);
    parse = parse_string;
  }

  unfoldable pub acl_load_request : Request D Status
  acl_load_request = record {
    name = codes "ACL";
    args = args_1 (literal (codes "LOAD"));
    parse = parse_status;
  }

  unfoldable pub acl_save_request : Request D Status
  acl_save_request = record {
    name = codes "ACL";
    args = args_1 (literal (codes "SAVE"));
    parse = parse_status;
  }

  unfoldable pub acl_setuser_request : Bytes → Args D → Request D Status
  acl_setuser_request username rules = record {
    name = codes "ACL";
    args = arg (literal (codes "SETUSER")) (arg (str username) rules);
    parse = parse_status;
  }
