-- ===== src/Lib.antt =====
-- Snowcast: a server that clients join, that keeps who listens to which station, and that logs every
-- change and replicates it to a backup before the client is answered.
--
-- The parts, and the files that model them. Paths are from the root of the repository.
--   * Protocol: the messages of pkg/protocol/protocol.proto that the server reads and builds, and the
--     errors of the code, by what makes them.
--   * State: internal/state/state.go. State.Store has the package's variables as one record, where a
--     *ClientInfo is an address in a heap, so that the map and the lists of the stations alias a
--     client as in the source. State.Apply has ApplyHandshake, ApplySetStation, ApplyDisconnect, their
--     rollbacks and ApplyWalEntry, each as one atomic step. State.Invariant is the invariant,
--     State.Roster the abstract view (which client has which station) with its specification. The
--     other files are about one operation or one piece of data each.
--   * Wal: pkg/wal/wal.go. Wal.File is the file: bytes, a cursor, and the outcomes of the coming writes
--     and syncs. Wal.Log has Open, Append, AppendReplicated, ReadAll and Close. Wal.Records and
--     Wal.Holds say which entries a file and a log stand for, Wal.Highest which number it has.
--   * Replication: internal/replication. Server is the handler of the backup (server.go), Coordinator
--     the primary's side (coordinator.go), where the network decides for each call whether it is
--     delivered, its request is lost or its reply is lost. Local is the server without a backup
--     (local.go). Backup, Catchup, Retry and Commit are the theorems, from one call to ReplicateAndWait,
--     and Recovery those on the replay of a log. Dial is the way to the backup: the rounds of dialBackup
--     before its deadline, Start and Shutdown.
--   * Leadership: internal/leadership/etcd.go. Etcd is the client of etcd that it calls, Session has
--     TryAcquire, Acquire, GetPrimary, KeepAlive and Revoke, Exclusive what an attempt does to the key.
--   * Node: internal/node/manager.go. Manager has the record of a manager with promoteToLeader,
--     demoteToStandby and the start of a standby, Poll the loop over etcd and the start of a leader. The
--     rounds of a loop are a list: what others do to etcd meanwhile, the entries that the primary sends,
--     and what a promotion would meet.
--     Promote, Twice, Again, Demote and Watch are the theorems.
--   * Control: internal/control/grpc.go. Replicator is the interface that its handlers use and what they
--     may rely on; Handlers has Handshake, SetStation and Disconnect, Stream the forwarding of events.
--     Replication.Settles and Replication.SettlesLocal fit the coordinators to it.
--     Drain has the same loop over the client's channel.
--   * Runtime: internal/runtime/runtime.go. Stream is a tick of a station's stream, which is given what
--     the read of the audio file returned, and gives back the packets; Serve has Serve and Stop with the
--     sockets, streams and servers of the process; Operator has HandleUserInput and
--     FormatStationString. The other files are the theorems.
--   * Client: cmd/snowcast_control/main.go. Input has checkOnlyNumbers and ParseUint, Session the two
--     loops and main, which give the requests that were made and the lines that were printed. Requested
--     and Heard are the theorems, the latter with the server's loop of Control.Stream.
--   * Bench: cmd/snowcast_bench. Flags has parseIntList and parseDuration (util.go), Load the number of
--     workers and the sequential load, Warmup the registration of the workers over the handlers of
--     Control, Dispatch the concurrent load as a step relation, Monitor the watch over the backup, Sweep
--     the levels of a sweep (load.go); Replay has the measured replay of a log (setup.go), Replayed its theorem.
--     Phases has the marks of internal/bench/markers.go and what is read back of them (util.go,
--     failover.go), Marked the theorem.
--   * Command: cmd/snowcast_server/main.go and cmd/snowcast_backup/main.go. Launch has the way from the
--     flags to `node.New` and the default names of the log files, Paths what is known of those.
--   * Failover: runs of requests that are all acknowledged (Requests), what a replicator with a log
--     promises and the invariant that it keeps (Kept), filled in for the two coordinators (Tracked,
--     Logged), the answers (Answered), the start of a primary that gives the invariant (Started, Leads),
--     the promotion of the backup behind such a run (Survives) by a round of its loop (Polled), and
--     logs that cannot be replayed (Repeated): a handshake that fails and is sent again (Doubled), two
--     handshakes at once in one interleaving (Raced), and a record of the backup whose Sync fails
--     (Unsynced, from Replication.Unsynced). Overtaken is a handshake with another request behind its check.
--   * System: a primary and its standby, and then the promoted node alone, as a step relation (Steps)
--     whose steps are requests, restarts and a failover; Sound and Restarts say what every state keeps,
--     Refined that the system refines one map from clients to stations.
--   * Prelude and Run: shared helpers; the outcome of code that may panic.
--   * Tests: concrete servers, logs and pairs, and the theorems applied to them.
--
-- How they interact: a handler of Control builds an entry and hands it, with an apply and a rollback of
-- State, to ReplicateAndWait of a coordinator, which appends it to a log of Wal, applies it, and calls
-- Replicate of the backup's handler, which appends it to a log of its own. A standby of Node that finds
-- the key of Leadership free replays its log into State and serves the handlers of Control over a
-- coordinator or over its log only; Client calls the handlers.
--
-- Bounds and fuel: numbers of entries are 64 bits wide and wrap around where they are counted up; the
-- theorems on appending ask for room below 2 ^ 64. The length of a record is 32 bits wide, and messages
-- are below 2 ^ 31 bytes as the encoding documents. The loop that reads a file runs on fuel, one round
-- more than the file has bytes: each round that goes on has read four bytes at least. The loop that
-- closes the clients' channels takes as many rounds as the map has entries.
--
-- Parameters: the encoding of entries (Wal.Log.Codec) and the client of etcd (Leadership.Etcd.Etcd, with
-- the laws Leadership.Etcd.IsEtcd), with what their documentation promises; the text of an address
-- (net.IP.String), and the digits that are not ASCII (unicode.IsDigit).
--
-- Not modelled: locks and the interleavings between the sections that hold them (a handler is one
-- step, but for the handshakes of Failover.Raced and Failover.Overtaken, and a node's promotion or
-- demotion too), clocks (a loop with a deadline is given its rounds), the goroutine of the keepalive
-- but for its loop, listeners and sockets, what the measuring command does in floating point, with the
-- times of log lines or with processes, the command that prints what its UDP port receives, and generated
-- code. A request that fails behind its checks is no step of System: its entry may be in a log whose
-- memory has been rolled back, and Failover.Doubled is what comes of that.
-- The theorems on a primary and its backup ask that no write or sync of the backup's file fails;
-- Failover.Unsynced is what comes of one that does. Two calls of ReplicateAndWait at once are not
-- interleaved.
pub mod Prelude
pub mod Run
pub mod Protocol
pub mod State
pub mod Wal
pub mod Replication
pub mod Control
pub mod Runtime
pub mod Leadership
pub mod Node
pub mod Client
pub mod Failover
pub mod System
pub mod Bench
pub mod Command
pub mod Tests
