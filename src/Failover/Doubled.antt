-- ===== src/Failover/Doubled.antt =====
-- A handshake that fails to replicate, and that the client sends again.
use mathlib.Core.Path.{subst}
use snowcast.Prelude.{
  ℕ, ◌+◌, ◌%◌, ◌^◌, ◌<◌, ◌≡◌, refl, sym, ap, ◌∙◌, inl, inr, true, Option, none, is_some, List, [],
  ◌++◌, length, length-append, arith,
}
use snowcast.Run.{done, ok, err, Ends, Ends-mono, done-state, done-value}
use snowcast.Protocol.{WalEntry, Error}
use snowcast.State.Store.{lookup}
use snowcast.State.Apply.{apply_handshake, rollback_handshake, get_client}
use snowcast.State.Sessions.{registered_state, apply_handshake-new}
use snowcast.Wal.Log.{Codec}
use snowcast.Wal.Holds.{Holds}
use snowcast.Wal.Append.{numbered}
use snowcast.Control.Handlers.{
  client_ip, key_of, entry_of, handshake_op, error_of, handle_handshake, handshake_free,
}
use snowcast.Control.Handshake.{rolled_back_state}
use snowcast.Replication.Coordinator.{Pair}
use snowcast.Replication.Settles.{coordinator}
use snowcast.Replication.Retry.{InSync}
use snowcast.Replication.Commit.{
  Failed, not_logged, not_applied, not_replicated, replicate_and_wait-Committed, IsNumbered-snoc,
}
use snowcast.Replication.Recovery.{IsValidLog-length}
use snowcast.Leadership.Session.{Session}
use snowcast.Node.Manager.{Node, standby, Surroundings, promote_to_leader}
use snowcast.Node.Promote.{IsAlone, Serving, promote_to_leader-Promoted}
use snowcast.Failover.Repeated.{
  once, twice, length-once, twice-refused, twice-IsValid, welcomed-InStepLog, refused-Failed,
}
use snowcast.Failover.Tracked.{IsTracked, InStepLog}
use snowcast.Failover.Survives.{length-init_stations}

-- There is an error, and the client service is as before.
abbrev pub IsRefused : Node → Option Error → Node → Type 0
IsRefused m x m' = (is_some x ≡ true) × (m'.client_srv ≡ m.client_srv)

module _ (codec : Codec) (num_stations port : ℕ) (es : List WalEntry) (w : Pair)
    (t : IsTracked codec es w) (room : length es + 2 < 2 ^ 64) (some_there : 0 < length es)
    (free : lookup (key_of port) w.mem.current_clients ≡ none) where
  -- The pair behind the handshake that failed: the client is unknown, and the entry is in the log.
  record IsRolled (v : Pair) : Type 0 where
    unregistered : lookup (key_of port) v.mem.current_clients ≡ none
    known : List WalEntry
    missing : List WalEntry
    sync : InSync codec v (once port es) known missing
    some_known : 0 < length known

  applied_once :
      error_of (apply_handshake client_ip port) w.mem
      ≡ done none (registered_state client_ip port w.mem)
  applied_once = rw (apply_handshake-new client_ip port w.mem free) refl

  rolled :
      (v : Pair)
      → v.wal.seq ≡ w.wal.seq + 1
      → Failed codec
          (entry_of (handshake_op port))
          (error_of (apply_handshake client_ip port))
          (rollback_handshake client_ip port)
          w
          es
          es
          v
      → IsRolled v
  rolled v logged (not_logged failed same seq backup) = absurd (omega (arith, logged, seq))
  rolled v logged (not_applied refused holds backup) =
      absurd (ground (arith, done-value (sym applied_once ∙ refused)))
  rolled v logged (not_replicated {m} applied undone holds ahead) =
      let at : registered_state client_ip port w.mem ≡ m =
        done-state (sym applied_once ∙ applied) in
      let back =
        rolled_back_state client_ip port w.mem v.mem free
          (ap (rollback_handshake client_ip port) at ∙ undone) in
      record {
        unregistered = rw back free;
        known = es ++ ahead.more;
        missing = ahead.rest;
        sync = record {
          primary = holds;
          numbered =
              IsNumbered-snoc 0 es (numbered (length es + 1) (entry_of (handshake_op port)))
                t.sync.numbered (omega arith);
          split = ahead.split;
          backup = ahead.follows;
          room = omega (arith, length-once port es, room);
        };
        some_known = omega (arith, some_there, length-append es ahead.more);
      }

  first_try :
      (x : Error) (v : Pair)
      → handle_handshake (coordinator codec) num_stations port w ≡ done (err x) v
      → v.wal.seq ≡ w.wal.seq + 1
      → IsRolled v
  unfolding handle_handshake handshake_free get_client
  first_try x v ran logged = rolled v logged (
      refused-Failed codec port (num_stations % 2 ^ 32) w es es _ v x
        (replicate_and_wait-Committed codec (entry_of (handshake_op port))
          (error_of (apply_handshake client_ip port)) (rollback_handshake client_ip port) w es es []
          t.sync (inr refl) (omega (arith, room)))
        (rw (free, handle_handshake) at ran))

  second_try :
      (v u : Pair) (k : ℕ)
      → IsRolled v
      → handle_handshake (coordinator codec) num_stations port v ≡ done (ok k) u
      → InStepLog codec (twice port es) u
  unfolding handle_handshake handshake_free get_client
  second_try v u k r ran =
      welcomed-InStepLog codec port (num_stations % 2 ^ 32) v (once port es) r.known _ u k
        (replicate_and_wait-Committed codec (entry_of (handshake_op port))
          (error_of (apply_handshake client_ip port)) (rollback_handshake client_ip port) v
          (once port es) r.known r.missing r.sync (inl r.some_known)
          (omega (arith, room, length-once port es)))
        (rw (r.unregistered, handle_handshake) at ran)

  -- Where primary and backup hold the same log, which is not empty and which the primary's memory
  -- comes to, and the backup accepts calls and has no failing write or sync ahead, a Handshake of
  -- an unknown client whose entry was logged but that returned an error, and that then succeeds
  -- when it is sent again, makes the log useless: a standby with the backup's log, as many
  -- stations, no clients in memory and no reachable backup cannot be promoted; there is an error
  -- and its client service is as before.
  pub promote_to_leader-IsRefused :
      (x : Error) (k : ℕ) (v u : Pair) (env : Surroundings) (session : Session) (m : Node)
      → handle_handshake (coordinator codec) num_stations port w ≡ done (err x) v
      → v.wal.seq ≡ w.wal.seq + 1
      → handle_handshake (coordinator codec) num_stations port v ≡ done (ok k) u
      → m.role ≡ standby
      → m.pair.mem.current_clients ≡ []
      → m.pair.wal ≡ u.backup.wal
      → length m.cfg.files ≡ length w.mem.station_list
      → IsAlone env m
      → Ends (IsRefused m) (promote_to_leader codec env session m)
  promote_to_leader-IsRefused x k v u env session m failed logged again is_standby nobody backup
        files alone =
      let both = second_try v u k (first_try x v failed logged) again in
      Ends-mono
        (promote_to_leader-Promoted codec env session m (twice port es) is_standby
          (subst (λ l. Holds codec l (twice port es)) (sym backup) both.backup.wal) nobody
          (IsValidLog-length w.mem.station_list _ (twice port es)
            (length-init_stations m.cfg.files m.pair.mem ∙ files)
            (twice-IsValid codec port es w t free))
          alone)
        λ y m' p.
          subst (λ o. Serving o env.serves m.client_srv y m') (twice-refused codec port es w t free)
            p.outcome
