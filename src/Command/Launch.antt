-- ===== src/Command/Launch.antt =====
-- `main` of cmd/snowcast_server/main.go and cmd/snowcast_backup/main.go up to `node.New`, and the default
-- names of log files (internal/replication/coordinator.go). Flags are given with the defaults filled in.
use snowcast.Prelude.{
  ℕ, Text, codes, Option, none, some, List, [], ◌∷◌, ◌++◌, ◌||◌, text_eq, if◌then◌else◌,
}
use snowcast.Node.Manager.{Config}

pub record ServerFlags : Type 0 where
  pub etcd_endpoints : Text
  pub etcd_key : Text
  pub lease_ttl : ℕ
  pub backup_addr : Text
  pub repl_port : Text
  pub wal_path : Text

pub record BackupFlags : Type 0 where
  pub etcd_endpoints : Text
  pub etcd_key : Text
  pub lease_ttl : ℕ
  pub lease_poll : ℕ
  pub repl_port : Text
  pub client_port : Text
  pub backup_addr : Text
  pub wal_path : Text

-- What `node.New` is called with: the fields that a running node reads, and those that are read once.
pub record Launch : Type 0 where
  pub etcd_endpoints : Text
  pub repl_port : Text
  pub wal_path : Text
  pub cfg : Config

-- `filepath.Join`, for a clean directory and a file name; 47 is the slash.
abbrev pub file_in : Text → Text → Text
file_in dir name = dir ++ 47 ∷ name

unfoldable pub default_wal_path : (temp_dir port : Text) → Text
default_wal_path temp_dir port = file_in temp_dir (codes "snowcast-" ++ (port ++ codes ".wal"))

unfoldable pub default_backup_wal_path : (temp_dir repl_port : Text) → Text
default_backup_wal_path temp_dir repl_port =
    file_in temp_dir (codes "snowcast-backup-" ++ (repl_port ++ codes ".wal"))

abbrev pub or_path : Text → Text → Text
or_path path default_path = if text_eq path [] then default_path else path

abbrev pub server_launch : Text → ServerFlags → List Text → Option Launch
server_launch temp_dir flags [] = none
server_launch temp_dir flags (port ∷ []) = none
server_launch temp_dir flags (port ∷ file ∷ files) = some (record {
  etcd_endpoints = flags.etcd_endpoints;
  repl_port = flags.repl_port;
  wal_path = or_path flags.wal_path (default_wal_path temp_dir port);
  cfg = record {
    etcd_key = flags.etcd_key;
    lease_ttl = flags.lease_ttl;
    lease_poll = 1000;
    client_port = port;
    backup_addr = flags.backup_addr;
    files = file ∷ files;
  };
})

-- `main` of snowcast_server; `none` where it ends with the usage.
unfoldable pub server_main : (temp_dir : Text) → ServerFlags → List Text → Option Launch
server_main temp_dir flags args =
    if text_eq flags.etcd_endpoints [] || text_eq flags.backup_addr [] || text_eq flags.repl_port []
    then none
    else server_launch temp_dir flags args

abbrev pub backup_launch : Text → BackupFlags → List Text → Option Launch
backup_launch temp_dir flags [] = none
backup_launch temp_dir flags (file ∷ files) = some (record {
  etcd_endpoints = flags.etcd_endpoints;
  repl_port = flags.repl_port;
  wal_path = or_path flags.wal_path (default_backup_wal_path temp_dir flags.repl_port);
  cfg = record {
    etcd_key = flags.etcd_key;
    lease_ttl = flags.lease_ttl;
    lease_poll = flags.lease_poll;
    client_port = flags.client_port;
    backup_addr = flags.backup_addr;
    files = file ∷ files;
  };
})

-- `main` of snowcast_backup.
unfoldable pub backup_main : (temp_dir : Text) → BackupFlags → List Text → Option Launch
backup_main temp_dir flags args =
    if text_eq flags.etcd_endpoints [] || text_eq flags.repl_port []
    then none
    else backup_launch temp_dir flags args
