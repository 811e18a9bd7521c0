-- ===== src/System/Restarts.antt =====
-- A process of the pair that starts again leaves the system sound.
use mathlib.Core.Option.{some_inj}
use mathlib.Core.Path.{subst}
use native.Mathlib.Nat.{zero-add}
use snowcast.Prelude.{
  ℕ, ◌≡◌, refl, sym, ◌∙◌, Text, Bool, true, false, none, some, arith, List, [], ◌∷◌, length,
}
use snowcast.Run.{done, Result, ok, err, Ends-at, done-state, done-value}
use snowcast.Protocol.{WalEntry, Error}
use snowcast.State.Store.{State, init_stations}
use snowcast.State.Boot.{init_stations-IsConsistent, roster-init_stations}
use snowcast.State.Roster.{roster}
use snowcast.Wal.File.{Outcome}
use snowcast.Wal.Log.{Codec, Log, open_log, last_seq}
use snowcast.Wal.Holds.{Holds, open_log-again}
use snowcast.Replication.Server.{InboundHandler, start_repl_server}
use snowcast.Replication.Backup.{Follows}
use snowcast.Replication.Commit.{max_seq-numbered}
use snowcast.Replication.Coordinator.{Pair}
use snowcast.Replication.Dial.{Attempt, start, after_open, start_with_wal_timeout}
use snowcast.Replication.Recovery.{IsValidLog, IsValidLog-length}
use snowcast.Node.Manager.{
  Node, Config, server_of, new, with_defaults, boot, run_as_standby, start_repl_server_with_retry,
}
use snowcast.Failover.Started.{start_with_wal_timeout-InStep}
use snowcast.Failover.Tracked.{InStepLog, IsTracked}
use snowcast.Failover.Survives.{length-init_stations}
use snowcast.System.Steps.{paired, follows}
use snowcast.System.Sound.{IsPaired, IsSound}

-- The node behind the rounds of a listener that came up.
listened :
    (rounds : List Bool) (m m' : Node)
    → start_repl_server_with_retry rounds m ≡ done none m'
    → record m { repl_server = some (server_of (start_repl_server m.pair.wal)) } ≡ m'
unfolding start_repl_server_with_retry
listened [] m m' ran = absurd (ground (arith, done-value ran))
listened (true ∷ rounds) m m' ran = done-state ran
listened (false ∷ rounds) m m' ran = listened rounds m m' ran

module _ (codec : Codec) (k : ℕ) (es : List WalEntry) (w : Pair) (m : Node)
    (p : IsPaired codec k es w m) where
  module _ (files : List Text) (blank : State) (as_many : length files ≡ length w.mem.station_list)
      (nobody : blank.current_clients ≡ []) where
    abbrev fresh : State
    fresh = init_stations files blank

    valid-fresh : IsValidLog fresh.station_list es
    valid-fresh =
        IsValidLog-length w.mem.station_list fresh.station_list es
          (length-init_stations files blank ∙ as_many) p.tracked.valid

    InStepLog-opened :
        (l : Log)
        → Holds codec l es
        → InStepLog codec es (record w { mem = fresh; wal = l; last_wal_seq = 0 })
    InStepLog-opened l holds = record {
      primary = holds;
      numbered = p.tracked.sync.numbered;
      split = p.tracked.sync.split;
      backup = p.tracked.sync.backup;
      room = p.tracked.sync.room;
    }

    opened_then :
        (attempts : List Attempt) (w' : Pair) (l : Log)
        → Holds codec l es
        → start_with_wal_timeout codec attempts
            (record w { mem = fresh; wal = l; last_wal_seq = 0 })
          ≡ done none w'
        → IsTracked codec es w' × (length w'.mem.station_list ≡ length fresh.station_list)
    opened_then attempts w' l holds ran =
        Ends-at
          (start_with_wal_timeout-InStep codec es es [] attempts
            (record w { mem = fresh; wal = l; last_wal_seq = 0 }) (InStepLog-opened l holds)
            (init_stations-IsConsistent files blank nobody)
            (roster-init_stations files blank nobody) valid-fresh)
          ran

    opened_by :
        (outcomes : List Outcome) (attempts : List Attempt) (w' : Pair) (r : Result Error Log)
        → open_log codec w.wal.file.content outcomes ≡ r
        → after_open codec attempts r (record w { mem = fresh; last_wal_seq = 0 }) ≡ done none w'
        → IsTracked codec es w' × (length w'.mem.station_list ≡ length fresh.station_list)
    unfolding after_open
    opened_by outcomes attempts w' (err x) opened ran = absurd (ground (arith, done-value ran))
    opened_by outcomes attempts w' (ok l) opened ran =
        opened_then attempts w' l
          ((open_log-again codec outcomes w.wal l es p.tracked.sync.primary opened).0) ran

    pub start-IsSound :
        (outcomes : List Outcome) (attempts : List Attempt) (w' : Pair)
        → start codec w.wal.file.content outcomes attempts
            (record w { mem = fresh; last_wal_seq = 0 })
          ≡ done none w'
        → IsSound codec k (paired w' (follows w'.backup m)) × (roster w'.mem ≡ roster w.mem)
    unfolding start
    start-IsSound outcomes attempts w' ran =
        let (tracked, stations) = opened_by outcomes attempts w' _ refl ran in
        (
          (
            es,
            record {
              tracked = tracked;
              stations = stations ∙ length-init_stations files blank ∙ as_many ∙ p.stations;
              role = p.role;
              log = refl;
              nobody = p.nobody;
              files = p.files;
            },
          ),
          some_inj.0 (sym tracked.agrees ∙ p.tracked.agrees),
        )

  -- The replication server on the log that the standby has on disk.
  Follows-opened :
      (l : Log)
      → open_log codec w.backup.wal.file.content [] ≡ ok l
      → Follows codec es (start_repl_server l)
  unfolding start_repl_server last_seq
  Follows-opened l opened =
      let (holds, calm) =
        open_log-again codec [] w.backup.wal l es p.tracked.sync.backup.wal opened in
      record {
        wal = holds;
        last = holds.seq ∙ max_seq-numbered 0 es p.tracked.sync.numbered ∙ zero-add (length es);
        accepting = refl;
        calm = calm;
      }

  IsTracked-backup :
      (h : InboundHandler) → Follows codec es h → IsTracked codec es (record w { backup = h })
  IsTracked-backup h f = record {
    sync = record {
      primary = p.tracked.sync.primary;
      numbered = p.tracked.sync.numbered;
      split = p.tracked.sync.split;
      backup = f;
      room = p.tracked.sync.room;
    };
    consistent = p.tracked.consistent;
    valid = p.tracked.valid;
    agrees = p.tracked.agrees;
  }

  pub run_as_standby-IsSound :
      (cfg : Config) (pair : Pair) (rounds : List Bool) (l : Log) (m' : Node)
      → length cfg.files ≡ length m.cfg.files
      → pair.mem.current_clients ≡ []
      → open_log codec w.backup.wal.file.content [] ≡ ok l
      → run_as_standby rounds (new cfg (record pair { wal = l })) ≡ done none m'
      → IsSound codec k (paired (record w { backup = start_repl_server l }) m')
  unfolding run_as_standby new with_defaults start_repl_server init_stations
  run_as_standby-IsSound cfg pair rounds l m' files nobody opened ran =
      let at = listened rounds (boot (new cfg (record pair { wal = l }))) m' ran in
      (
        es,
        subst (λ n. IsPaired codec k es (record w { backup = start_repl_server l }) n) at
            (record {
              tracked = IsTracked-backup (start_repl_server l) (Follows-opened l opened);
              stations = p.stations;
              role = refl;
              log = refl;
              nobody = nobody;
              files = files ∙ p.files;
            }),
      )
