-- ===== src/Node/Again.antt =====
-- A promotion of a node whose memory has a client of its log, as one has that was leader before.
use snowcast.Prelude.{ℕ, ◌≡◌, refl, true, Option, none, some, is_some, List, ◌∷◌}
use snowcast.Run.{done, Ends, ends}
use snowcast.Protocol.{
  WalEntry, HandshakeOp, handshake, Error, apply_wal_seq, client_already_connected,
}
use snowcast.State.Store.{State, init_stations, client_key, lookup}
use snowcast.State.Apply.{apply_wal_op, apply_wal_entry}
use snowcast.State.Sessions.{apply_handshake-taken}
use snowcast.Wal.Log.{Codec}
use snowcast.Wal.Holds.{Holds}
use snowcast.Replication.Coordinator.{replay}
use snowcast.Leadership.Session.{Session}
use snowcast.Node.Manager.{Node, leader, standby, Surroundings, after_replay, promote_to_leader}
use snowcast.Node.Promote.{promote_to_leader-replayed}

-- The node is leader and answers nobody: it has no replication server, and its service is what it was.
pub record IsStuck (its : Session) (m : Node) (x : Option Error) (m' : Node) : Type 0 where
  pub failed : is_some x ≡ true
  pub role : m'.role ≡ leader
  pub session : m'.session ≡ some its
  pub repl_server : m'.repl_server ≡ none
  pub client_srv : m'.client_srv ≡ m.client_srv

module _ (codec : Codec) (env : Surroundings) (session : Session) (m : Node) (e : WalEntry)
    (es : List WalEntry) (op : HandshakeOp) (p : ℕ) where
  refused :
      (s : State)
      → e.op ≡ handshake op
      → lookup (client_key op.client_ip op.udp_port) s.current_clients ≡ some p
      → replay apply_wal_seq (e ∷ es) s
        ≡ done
            (some (
              apply_wal_seq e.seq (client_already_connected (client_key op.client_ip op.udp_port))))
            s
  unfolding replay apply_wal_entry apply_wal_op
  refused s first taken = rw (first, apply_handshake-taken op.client_ip op.udp_port s taken) refl

  -- A standby whose log starts with the handshake of a client that is still registered in its
  -- memory cannot be promoted: there is an error, and the node is leader with the session, without
  -- replication server, and its client service is as it was.
  pub promote_to_leader-IsStuck :
      m.role ≡ standby
      → Holds codec m.pair.wal (e ∷ es)
      → e.op ≡ handshake op
      → lookup (client_key op.client_ip op.udp_port) m.pair.mem.current_clients ≡ some p
      → Ends (IsStuck session m) (promote_to_leader codec env session m)
  unfolding after_replay init_stations
  promote_to_leader-IsStuck is_standby holds first taken =
      let s = init_stations m.cfg.files m.pair.mem in
      rw
        (promote_to_leader-replayed codec env session m (e ∷ es) _ s is_standby holds
          (refused s first taken))
        (ends (record {
          failed = refl;
          role = refl;
          session = refl;
          repl_server = refl;
          client_srv = refl;
        }))
