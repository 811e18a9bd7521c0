-- ===== src/Protocol.antt =====
-- The messages of pkg/protocol/protocol.proto that the server's code reads and builds, and the
-- `error` values of the code by what makes them (`%w` keeps the wrapped error).
use snowcast.Prelude.{ℕ, ℤ, Text, Bool, Option}

pub record HandshakeOp : Type 0 where
  pub client_ip : Text
  pub udp_port : ℕ  -- uint32

pub record SetStationOp : Type 0 where
  pub client_ip : Text
  pub udp_port : ℕ  -- uint32
  pub station_number : ℤ  -- int32
  pub previous_station : ℤ  -- int32

pub record DisconnectOp : Type 0 where
  pub client_ip : Text
  pub udp_port : ℕ  -- uint32

-- The `oneof op`; `unset` is a nil `Op`.
pub data WalOp : Type 0 where
  handshake : HandshakeOp → WalOp
  set_station : SetStationOp → WalOp
  disconnect : DisconnectOp → WalOp
  unset : WalOp

pub record WalEntry : Type 0 where
  pub seq : ℕ  -- uint64
  pub op : WalOp

pub data ServerEvent : Type 0 where
  announce : (song_name : Text) → ServerEvent
  invalid : (reply_string : Text) → ServerEvent

pub data Error : Type 0 where
  client_already_connected : Text → Error
  client_not_found : Text → Error
  unknown_wal_op : Error
  invalid_station_number : ℤ → Error
  stream_closed : Error
  context_ended : Error
  file_closed : Error
  write_failed : Error
  eof : Error
  unexpected_eof : Error
  marshal_failed : Error
  unmarshal_failed : Error
  invalid_record_size : Error
  missing_seq : Error
  missing_entry : Error
  replication_stopped : Error
  expected_seq : (expected got : ℕ) → Error
  backup_rejected : (seq : ℕ) → Error
  rpc_failed : Error
  wal_append : Error → Error
  replication_failed : Error → Error
  recover_failed : Error → Error
  sync_backup : Error → Error
  recover_seq : (seq : ℕ) → Error → Error
  apply_wal_seq : (seq : ℕ) → Error → Error
  open_wal : Error → Error
  listen_failed : Error
  serve_failed : Error
  udp_addr : Error
  udp_listen : Error
  tcp_listen : Error
  backup_not_ready : Error
  etcd_failed : Error
  key_held : Text → Error
  lease_lost : Error
  lease_revoked : Error
  out_of_fuel : Error  -- of the model: a loop that was not given enough rounds

pub record ReplicateResponse : Type 0 where
  pub seq : ℕ
  pub ok : Bool
  pub error : Option Error
