-- ===== src/Commands/Admin/Cluster.antt =====
-- cluster_commands.h: the cluster commands.
use qbm_redis.Base.{List, Bytes, codes}
use qbm_redis.Base.Int.{ℤ}
use qbm_redis.Floating.{Floating}
use qbm_redis.Types.{Status}
use qbm_redis.Reply.Scalars.{parse_string, parse_long_long, parse_status}
use qbm_redis.Reply.Json.{Json, JsonText, parse_json}
use qbm_redis.Reply.Containers.{parse_sequence}
use qbm_redis.Commands.{Request, args_1, args_2, args_3}
use qbm_redis.Commands.Arguments.{nonempty_args}
use qbm_redis.Wire.{literal, str, number, arg}

module _ {D : Type 0} ⦃F : Floating D⦄ ⦃J : JsonText D⦄ where
  unfoldable pub cluster_info_request : Request D (Json D)
  cluster_info_request = record {
    name = codes "CLUSTER";
    args = args_1 (literal (codes "INFO"));
    parse = parse_json;
  }

  unfoldable pub cluster_nodes_request : Request D (Json D)
  cluster_nodes_request = record {
    name = codes "CLUSTER";
    args = args_1 (literal (codes "NODES"));
    parse = parse_json;
  }

  unfoldable pub cluster_slots_request : Request D (Json D)
  cluster_slots_request = record {
    name = codes "CLUSTER";
    args = args_1 (literal (codes "SLOTS"));
    parse = parse_json;
  }

module _ {D : Type 0} where
  unfoldable pub cluster_meet_request : Bytes → ℤ → Request D Status
  cluster_meet_request ip port = record {
    name = codes "CLUSTER";
    args = args_3 (literal (codes "MEET")) (str ip) (number port);
    parse = parse_status;
  }

  unfoldable pub cluster_forget_request : Bytes → Request D Status
  cluster_forget_request node_id = record {
    name = codes "CLUSTER";
    args = args_2 (literal (codes "FORGET")) (str node_id);
    parse = parse_status;
  }

  unfoldable pub cluster_reset_request : Bytes → Request D Status
  cluster_reset_request mode = record {
    name = codes "CLUSTER";
    args = args_2 (literal (codes "RESET")) (str mode);
    parse = parse_status;
  }

  unfoldable pub cluster_failover_request : Bytes → Request D Status
  unfolding nonempty_args
  cluster_failover_request option = record {
    name = codes "CLUSTER";
    args = arg (literal (codes "FAILOVER")) (nonempty_args option);
    parse = parse_status;
  }

  unfoldable pub cluster_replicate_request : Bytes → Request D Status
  cluster_replicate_request node_id = record {
    name = codes "CLUSTER";
    args = args_2 (literal (codes "REPLICATE")) (str node_id);
    parse = parse_status;
  }

  unfoldable pub cluster_saveconfig_request : Request D Status
  cluster_saveconfig_request = record {
    name = codes "CLUSTER";
    args = args_1 (literal (codes "SAVECONFIG"));
    parse = parse_status;
  }

  unfoldable pub cluster_set_config_epoch_request : ℤ → Request D Status
  cluster_set_config_epoch_request epoch = record {
    name = codes "CLUSTER";
    args = args_2 (literal (codes "SET-CONFIG-EPOCH")) (number epoch);
    parse = parse_status;
  }

  unfoldable pub cluster_bumpepoch_request : Request D Status
  cluster_bumpepoch_request = record {
    name = codes "CLUSTER";
    args = args_1 (literal (codes "BUMPEPOCH"));
    parse = parse_status;
  }

  unfoldable pub cluster_myid_request : Request D Bytes
  cluster_myid_request = record {
    name = codes "CLUSTER";
    args = args_1 (literal (codes "MYID"));
    parse = parse_string;
  }

  unfoldable pub cluster_keyslot_request : Bytes → Request D ℤ
  cluster_keyslot_request key = record {
    name = codes "CLUSTER";
    args = args_2 (literal (codes "KEYSLOT")) (str key);
    parse = parse_long_long;
  }

  unfoldable pub cluster_countkeysinslot_request : ℤ → Request D ℤ
  cluster_countkeysinslot_request slot = record {
    name = codes "CLUSTER";
    args = args_2 (literal (codes "COUNTKEYSINSLOT")) (number slot);
    parse = parse_long_long;
  }

  unfoldable pub cluster_getkeysinslot_request : ℤ → ℤ → Request D (List Bytes)
  cluster_getkeysinslot_request slot count = record {
    name = codes "CLUSTER";
    args = args_3 (literal (codes "GETKEYSINSLOT")) (number slot) (number count);
    parse = parse_sequence parse_string;
  }
