-- ===== src/Node/Manager.antt =====
-- internal/node/manager.go: the roles of a node and the changes between them.
use snowcast.Prelude.{
  ℕ, Text, codes, ◌++◌, ◌==◌, Bool, true, false, Option, none, some, List, [], ◌∷◌, text_eq,
  if◌then◌else◌,
}
use snowcast.Run.{pure, Run, done, panic, Go, ◌>>=◌, Result, ok, err}
use snowcast.Protocol.{
  WalEntry, ReplicateResponse, Error, apply_wal_seq, serve_failed, listen_failed,
}
use snowcast.State.Store.{init_stations}
use snowcast.Wal.Log.{Codec, Log, read_all, close}
use snowcast.Replication.Server.{InboundHandler, start_repl_server, replicate}
use snowcast.Replication.Coordinator.{Pair, on_mem, replay, start_with_wal}
use snowcast.Replication.Dial.{Attempt, dial_backup}
use snowcast.Leadership.Session.{Session, default_key}

-- Times are in milliseconds; the lease's are seconds.
pub record Config : Type 0 where
  pub etcd_key : Text
  pub lease_ttl : ℕ
  pub lease_poll : ℕ
  pub client_port : Text
  pub backup_addr : Text
  pub files : List Text

-- The defaults that `New` fills in.
unfoldable pub with_defaults : Config → Config
with_defaults c = record c {
  etcd_key = if text_eq c.etcd_key [] then default_key else c.etcd_key;
  lease_poll = if c.lease_poll == 0 then 1000 else c.lease_poll;
  lease_ttl = if c.lease_ttl == 0 then 5 else c.lease_ttl;
}

pub data Role : Type 0 where
  leader : Role
  standby : Role

-- The replicator that the client service was given: `Global()`, or a local coordinator.
pub data Service : Type 0 where
  replicated : Service
  local_only : Service

-- The handler of the replication server, whose log is the manager's.
pub record ReplServer : Type 0 where
  pub last_wal_seq : ℕ
  pub accepting : Bool

-- `Manager`. `pair` has the process's memory, the manager's log, and the other node as the calls of a
-- coordinator find it; `connected` is that the package variable `global` is set.
pub record Node : Type 0 where
  pub cfg : Config
  pub pair : Pair
  pub connected : Bool
  pub role : Role
  pub session : Option Session
  pub keeping : Bool
  pub repl_server : Option ReplServer
  pub client_srv : Option Service

unfoldable pub new : Config → Pair → Node
unfolding with_defaults
new cfg pair = record {
  cfg = with_defaults cfg;
  pair = pair;
  connected = false;
  role = standby;
  session = none;
  keeping = false;
  repl_server = none;
  client_srv = none;
}

abbrev pub lift_pair : {A : Type 0} → Node → Run Pair A → Run Node A
lift_pair m (done a w) = done a (record m { pair = w })
lift_pair m (panic w) = panic (record m { pair = w })

abbrev pub on_pair : {A : Type 0} → Go Pair A → Go Node A
on_pair f m = lift_pair m (f m.pair)

-- `none` stands for a server that was stopped.
unfoldable pub close_node : Node → Node
close_node m = record m {
  keeping = false;
  client_srv = none;
  repl_server = none;
  connected = false;
  pair = record (m.pair) { wal = close m.pair.wal };
}

-- `primaryValue`
abbrev pub primary_value : Config → Text
primary_value c = codes "127.0.0.1:" ++ c.client_port

abbrev pub server_of : InboundHandler → ReplServer
server_of h = record { last_wal_seq = h.last_wal_seq; accepting = h.accepting }

abbrev pub handler_of : ReplServer → Log → InboundHandler
handler_of r l = record { wal = l; last_wal_seq = r.last_wal_seq; accepting = r.accepting }

-- The rounds before the deadline, each with whether the port could be listened on.
unfoldable pub start_repl_server_with_retry : List Bool → Go Node (Option Error)
start_repl_server_with_retry [] m = done (some listen_failed) m
start_repl_server_with_retry (true ∷ rounds) m =
    done none (record m { repl_server = some (server_of (start_repl_server m.pair.wal)) })
start_repl_server_with_retry (false ∷ rounds) m = start_repl_server_with_retry rounds m

-- A `Replicate` that reaches the node's server; `none` where no server runs.
unfoldable pub receive_at :
    Codec → Option WalEntry → Option ReplServer → Node → Option ReplicateResponse × Node
receive_at codec request none m = (none, m)
receive_at codec request (some r) m =
    let (response, h) = replicate codec request (handler_of r m.pair.wal) in
    (
      some response,
      record m { pair = record (m.pair) { wal = h.wal }; repl_server = some (server_of h) },
    )

unfoldable pub receive : Codec → Option WalEntry → Node → Option ReplicateResponse × Node
unfolding receive_at
receive codec request m = receive_at codec request m.repl_server m

unfoldable pub receive_all : Codec → List (Option WalEntry) → Node → Node
unfolding receive
receive_all codec [] m = m
receive_all codec (request ∷ requests) m = receive_all codec requests (receive codec request m).1

-- What the node meets while it is promoted: the rounds of the dial, and whether the ports of the client
-- service can be opened.
pub record Surroundings : Type 0 where
  pub attempts : List Attempt
  pub serves : Bool

unfoldable pub take_over : Session → Node → Node
take_over s m = record m { session = some s; role = leader; keeping = true; repl_server = none }

-- `runtime.Serve`, and `ShutdownGlobal` after its error.
unfoldable pub serve_clients : Bool → Service → Go Node (Option Error)
serve_clients true service m = done none (record m { client_srv = some service })
serve_clients false service m = done (some serve_failed) (record m { connected = false })

unfoldable pub started : Option Error → Go Node Service
started none m = done replicated (record m { connected = true })
started (some e) m = done local_only (record m { connected = false })

module _ (codec : Codec) where
  unfoldable pub dialled : Option Error → Go Node Service
  unfolding started
  dialled (some e) m = done local_only m
  dialled none m = (on_pair (start_with_wal codec) >>= started) m

  -- The replicator of the promoted node: local where there is no address or no connection.
  unfoldable pub connect : List Attempt → Go Node Service
  unfolding dialled
  connect attempts m =
      if text_eq m.cfg.backup_addr [] then done local_only m else dialled (dial_backup attempts) m

  unfoldable pub after_replay : Surroundings → Option Error → Go Node (Option Error)
  unfolding connect serve_clients
  after_replay env (some e) m = done (some e) m
  after_replay env none m = (connect env.attempts >>= serve_clients env.serves) m

  unfoldable pub promote_read :
      Surroundings → Node → Result Error (List WalEntry) × Log → Run Node (Option Error)
  unfolding after_replay
  promote_read env m (err e, l) = done (some e) (record m { pair = record (m.pair) { wal = l } })
  promote_read env m (ok es, l) =
      (on_pair (on_mem (λ s. replay apply_wal_seq es (init_stations m.cfg.files s)))
          >>= after_replay env)
        (record m { pair = record (m.pair) { wal = l } })

  -- `promoteToLeader`, by the role. Without an error it has started to serve, and blocks.
  unfoldable pub promote_from : Surroundings → Session → Role → Go Node (Option Error)
  unfolding promote_read take_over
  promote_from env session leader m = done none m
  promote_from env session standby m =
      promote_read env (take_over session m) (read_all codec m.pair.wal)

  unfoldable pub promote_to_leader : Surroundings → Session → Go Node (Option Error)
  unfolding promote_from
  promote_to_leader env session m = promote_from env session m.role m

-- `demoteToStandby` up to the poll loop: it waits in `Stop` of the client service for ever, or returns,
-- where an error is the end of the process.
pub data Demotion : Type 0 where
  stopping : Demotion
  demoted : Option Error → Demotion

-- Behind `Stop`.
unfoldable pub step_down : List Bool → Go Node Demotion
unfolding start_repl_server_with_retry
step_down rounds m =
    (start_repl_server_with_retry rounds >>= λ x. pure (demoted x))
      (record m { connected = false; session = none; role = standby })

-- `Stop` waits until the streams of the clients end; `streams_end` is whether they do.
unfoldable pub stop_clients : (streams_end : Bool) → List Bool → Option Service → Go Node Demotion
unfolding step_down
stop_clients streams_end rounds none m = step_down rounds m
stop_clients true rounds (some srv) m = step_down rounds (record m { client_srv = none })
stop_clients false rounds (some srv) m = done stopping m

unfoldable pub demote_from : (streams_end : Bool) → List Bool → Role → Go Node Demotion
unfolding stop_clients
demote_from streams_end rounds standby m = done (demoted none) m
demote_from streams_end rounds leader m =
    stop_clients streams_end rounds m.client_srv (record m { keeping = false })

unfoldable pub demote_to_standby : (streams_end : Bool) → List Bool → Go Node Demotion
unfolding demote_from
demote_to_standby streams_end rounds m = demote_from streams_end rounds m.role m

-- `InitStations` on the node's memory.
abbrev pub boot : Node → Node
boot m = record m { pair = record (m.pair) { mem = init_stations m.cfg.files m.pair.mem } }

-- `RunAsStandby` up to the poll loop.
unfoldable pub run_as_standby : List Bool → Go Node (Option Error)
unfolding start_repl_server_with_retry
run_as_standby rounds m = start_repl_server_with_retry rounds (boot m)
