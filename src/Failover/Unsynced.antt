-- ===== src/Failover/Unsynced.antt =====
-- A handshake during which one Sync of the backup fails.
use mathlib.Core.Path.{subst}
use native.Mathlib.Nat.{zero-add}
use snowcast.Prelude.{
  ℕ, ltb, if◌then◌else◌, ◌+◌, ◌%◌, ◌^◌, ◌<◌, ◌≡◌, refl, sym, ap, ◌∙◌, none, some, true, List, [],
  ◌∷◌, ◌++◌, length, arith,
}
use snowcast.Run.{done, ok, Ends, Ends-mono}
use snowcast.Protocol.{WalEntry}
use snowcast.State.Store.{State, lookup}
use snowcast.State.Apply.{apply_handshake, rollback_handshake, get_client}
use snowcast.State.Sessions.{registered_state, apply_handshake-new}
use snowcast.Wal.File.{Bytes, fine, short, File}
use snowcast.Wal.Log.{Codec, Log, append}
use snowcast.Wal.Holds.{Holds}
use snowcast.Wal.Records.{cursor}
use snowcast.Wal.Append.{numbered, append-calm}
use snowcast.Control.Handlers.{
  client_ip, key_of, entry_of, handshake_op, error_of, handle_handshake, handshake_free,
}
use snowcast.Replication.Coordinator.{
  Pair, replicate_and_wait, after_append, after_apply, acknowledge, replicate_with_retry,
}
use snowcast.Replication.Settles.{coordinator}
use snowcast.Replication.Commit.{max_seq-numbered}
use snowcast.Replication.Recovery.{IsValidLog-length}
use snowcast.Replication.Unsynced.{twice_held, replicate_with_retry-twice}
use snowcast.Leadership.Session.{Session}
use snowcast.Node.Manager.{Node, standby, Surroundings, promote_to_leader}
use snowcast.Node.Promote.{IsAlone, Serving, promote_to_leader-Promoted}
use snowcast.Failover.Repeated.{once, again-refused, again-IsValid}
use snowcast.Failover.Doubled.{IsRefused}
use snowcast.Failover.Tracked.{IsTracked}
use snowcast.Failover.Survives.{length-init_stations}

-- The pair where the third call on the backup's file fails: the Sync behind the two writes of a record.
abbrev pub failing_sync : ℕ → Pair → Pair
failing_sync k w = record w {
  backup = record (w.backup) {
    wal = record (w.backup.wal) {
      file = record (w.backup.wal.file) { outcomes = fine ∷ fine ∷ short k ∷ [] };
    };
  };
}

-- A node with the backup's log.
abbrev pub with_log_of : Pair → Node → Node
with_log_of u n = record n { pair = record (n.pair) { wal = u.backup.wal } }

module _ (codec : Codec) (num_stations port : ℕ) (es : List WalEntry) (w : Pair)
    (t : IsTracked codec es w) (room : length es + 1 < 2 ^ 64) (b : Bytes)
    (m : codec.marshal (numbered (length es + 1) (entry_of (handshake_op port))) ≡ some b)
    (calm : w.wal.file.outcomes ≡ []) (delivers : w.net ≡ [])
    (free : lookup (key_of port) w.mem.current_clients ≡ none) where
  abbrev entry : WalEntry
  entry = numbered (length es + 1) (entry_of (handshake_op port))

  abbrev doubled : List WalEntry
  doubled = once port es ++ entry ∷ []

  below : w.wal.seq ≡ length es
  below = t.sync.primary.seq ∙ max_seq-numbered 0 es t.sync.numbered ∙ zero-add (length es)

  backup_seq : w.backup.wal.seq ≡ length es
  backup_seq = t.sync.backup.wal.seq ∙ max_seq-numbered 0 es t.sync.numbered ∙ zero-add (length es)

  abbrev bytes : Bytes
  bytes = t.sync.backup.wal.bytes

  -- The pair behind Append and apply.
  abbrev parts : ℕ → State → Log → Pair
  parts k s l = record {
    mem = s;
    wal = l;
    last_wal_seq = w.last_wal_seq;
    backup = record {
      wal = record {
        file = cursor bytes [] (fine ∷ fine ∷ short k ∷ []);
        is_open = true;
        seq = length es;
      };
      last_wal_seq = length es;
      accepting = true;
    };
    net = [];
  }

  as_parts :
      (k : ℕ) (s : State) (l : Log) → record (failing_sync k w) { mem = s; wal = l } ≡ parts k s l
  as_parts k s l = λ i. record {
    mem = s;
    wal = l;
    last_wal_seq = w.last_wal_seq;
    backup = record {
      wal = record {
        file = record {
          content = ap (λ (f : File). f.content) t.sync.backup.wal.at_end i;
          pos = ap (λ (f : File). f.pos) t.sync.backup.wal.at_end i;
          outcomes = fine ∷ fine ∷ short k ∷ [];
        };
        is_open = t.sync.backup.wal.is_open i;
        seq = backup_seq i;
      };
      last_wal_seq = t.sync.backup.last i;
      accepting = t.sync.backup.accepting i;
    };
    net = delivers i;
  }

  appended :
      (l : Log) × (append codec (entry_of (handshake_op port)) w.wal ≡ (ok (length es + 1), l))
      × Holds codec l (once port es)
  appended =
      let coded : codec.marshal (numbered (w.wal.seq + 1) (entry_of (handshake_op port))) ≡ some b =
        subst (λ n. codec.marshal (numbered (n + 1) (entry_of (handshake_op port))) ≡ some b)
          (sym below) m in
      let (l, ran, holds, calm', seq) =
        append-calm codec (entry_of (handshake_op port)) w.wal es b t.sync.primary
          (omega (arith, room, below)) calm coded in
      (
        l,
        ran ∙ ap (λ n. (ok (n + 1), l)) below,
        subst (λ n. Holds codec l (es ++ numbered (n + 1) (entry_of (handshake_op port)) ∷ []))
            below holds,
      )

  -- The replication of the entry: no error, and the backup has it twice.
  sent_twice :
      (k : ℕ) (s : State) (l : Log)
      → Holds codec l (once port es)
      → (v : Pair) × (replicate_with_retry codec entry
            (record (failing_sync k w) { mem = s; wal = l })
          ≡ (none, v))
        × Holds codec v.backup.wal doubled
  sent_twice k s l holds = (
    _,
    ap (replicate_with_retry codec entry) (as_parts k s l)
        ∙ replicate_with_retry-twice codec entry es bytes b t.sync.backup.wal.encodes
            t.sync.numbered refl room m s l w.last_wal_seq holds k,
    twice_held codec entry es bytes b t.sync.backup.wal.encodes t.sync.numbered refl room m s l
        w.last_wal_seq holds,
  )

  registering :
      error_of (apply_handshake client_ip port) w.mem
      ≡ done none (registered_state client_ip port w.mem)
  registering = rw (apply_handshake-new client_ip port w.mem free) refl

  committed_twice :
      (k : ℕ)
      → (u : Pair) × (replicate_and_wait codec
            (entry_of (handshake_op port))
            (error_of (apply_handshake client_ip port))
            (rollback_handshake client_ip port)
            (failing_sync k w)
          ≡ done none u)
        × Holds codec u.backup.wal doubled
  unfolding replicate_and_wait after_append after_apply acknowledge
  committed_twice k =
      let (l, ran, holds) = appended in
      let (v, sent, twice) = sent_twice k (registered_state client_ip port w.mem) l holds in
      (
        record v {
          last_wal_seq =
              if ltb v.last_wal_seq (length es + 1) then length es + 1 else v.last_wal_seq;
        },
        rw (ran, registering, sent) refl,
        twice,
      )

  -- The client is told of success, and the backup cannot take over.
  welcomed_twice :
      (k : ℕ)
      → (u : Pair) × (handle_handshake (coordinator codec) num_stations port (failing_sync k w)
          ≡ done (ok (num_stations % 2 ^ 32)) u)
        × Holds codec u.backup.wal doubled
  unfolding handle_handshake handshake_free get_client
  welcomed_twice k =
      let (u, ran, twice) = committed_twice k in (u, rw (free, handle_handshake, ran) refl, twice)

  -- Where primary and backup hold the same log, which the primary's memory comes to, no call
  -- between the nodes is lost, and of the coming writes and syncs only one fails, the backup's Sync
  -- behind the record of the next entry, a Handshake of an unknown client, for whose entry there is
  -- a message, returns success; but then a standby with the backup's log, as many stations, no
  -- clients in memory and no reachable backup cannot be promoted: there is an error and its client
  -- service is as before.
  pub failing_sync-IsRefused :
      (k : ℕ) (env : Surroundings) (session : Session) (n : Node)
      → n.role ≡ standby
      → n.pair.mem.current_clients ≡ []
      → length n.cfg.files ≡ length w.mem.station_list
      → IsAlone env n
      → (u : Pair) × (handle_handshake (coordinator codec) num_stations port (failing_sync k w)
          ≡ done (ok (num_stations % 2 ^ 32)) u)
        × Ends (IsRefused (with_log_of u n)) (promote_to_leader codec env session (with_log_of u n))
  failing_sync-IsRefused k env session n is_standby nobody files alone =
      let (u, ran, twice) = welcomed_twice k in
      (
        u,
        ran,
        Ends-mono
            (promote_to_leader-Promoted codec env session (with_log_of u n) doubled is_standby twice
              nobody
              (IsValidLog-length w.mem.station_list _ doubled
                (length-init_stations n.cfg.files n.pair.mem ∙ files)
                (again-IsValid codec port es w t free (length es + 1)))
              alone)
            λ y n' p.
              subst (λ o. Serving o env.serves n.client_srv y n')
                (again-refused codec port es w t free (length es + 1)) p.outcome,
      )
