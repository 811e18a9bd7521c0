-- ===== src/Failover/Survives.antt =====
-- A standby that takes over after the primary is gone.
use mathlib.Core.Path.{subst}
use snowcast.Prelude.{
  ◌+◌, ◌^◌, ◌≤◌, ◌<◌, ◌≡◌, refl, sym, ap, ◌∙◌, suc, Text, true, Option, none, some, List, [], ◌∷◌,
  length,
}
use snowcast.Run.{done, Ends, Ends-mono}
use snowcast.Protocol.{WalEntry, Error}
use snowcast.State.Store.{State, init_stations}
use snowcast.State.Invariant.{IsConsistent}
use snowcast.State.Roster.{Roster, roster}
use snowcast.Wal.Log.{Codec}
use snowcast.Wal.Holds.{Holds}
use snowcast.Replication.Coordinator.{Pair}
use snowcast.Replication.Recovery.{spec_replay, IsValidLog-length}
use snowcast.Leadership.Session.{Session}
use snowcast.Node.Manager.{Node, leader, standby, local_only, Surroundings, promote_to_leader}
use snowcast.Node.Promote.{IsAlone, Promoted, Serving, promote_to_leader-Promoted}
use snowcast.Failover.Tracked.{IsTracked}
use snowcast.Failover.Requests.{Call, perform_all}
use snowcast.Failover.Answered.{perform_all-IsTracked}

pub length-init_stations :
    (files : List Text) (s : State) → length (init_stations files s).station_list ≡ length files
unfolding init_stations
length-init_stations [] s = refl
length-init_stations (f ∷ files) s = ap suc (length-init_stations files s)

-- The new leader serves, and every client is at the station that it has in `old`.
pub record TakesOver (old : State) (x : Option Error) (m : Node) : Type 0 where
  pub fine : x ≡ none
  pub role : m.role ≡ leader
  pub client_srv : m.client_srv ≡ some local_only
  pub consistent : IsConsistent m.pair.mem
  pub clients : roster m.pair.mem ≡ roster old

module _ (codec : Codec) (env : Surroundings) (session : Session) (m : Node) (w w' : Pair)
    (is_standby : m.role ≡ standby) (nobody : m.pair.mem.current_clients ≡ [])
    (alone : IsAlone env m) (serves : env.serves ≡ true)
    (stations : length m.cfg.files ≡ length w.mem.station_list)
    (backup : m.pair.wal ≡ w'.backup.wal) where
  Promoted-TakesOver :
      (o : Option Roster) (x : Option Error) (m' : Node)
      → o ≡ some (roster w'.mem)
      → Promoted session m o env.serves x m'
      → TakesOver w'.mem x m'
  Promoted-TakesOver o x m' e p =
      let (fine, service, seen) : Serving (some (roster w'.mem)) true m.client_srv x m' =
        rw (e, serves) at p.outcome in
      record {
        fine = fine;
        role = p.role;
        client_srv = service;
        consistent = p.consistent;
        clients = seen;
      }

  tracked-TakesOver :
      (fs : List WalEntry)
      → IsTracked codec fs w'
      → length w'.mem.station_list ≡ length w.mem.station_list
      → Ends (TakesOver w'.mem) (promote_to_leader codec env session m)
  tracked-TakesOver fs t kept =
      Ends-mono
        (promote_to_leader-Promoted codec env session m fs is_standby
          (subst (λ l. Holds codec l fs) (sym backup) t.sync.backup.wal) nobody
          (IsValidLog-length w'.mem.station_list _ fs
            (length-init_stations m.cfg.files m.pair.mem ∙ stations ∙ sym kept) t.valid)
          alone)
        λ x m' p. Promoted-TakesOver (spec_replay fs (λ k. none)) x m' t.agrees p

  -- Where a primary and its backup hold the same log, the primary's memory is what the log comes
  -- to, the backup accepts calls and no write or sync of its file fails, after any run of
  -- Handshake, SetStation and Disconnect that all told their clients of success, with at most 2^31
  -- stations and fewer than 2^64 entries, whatever the fate of the calls between the nodes: a
  -- standby with the backup's log, as many stations, no clients in memory, no reachable backup of
  -- its own and ports that open is promoted without an error or a panic, and serves every client at
  -- the station that it has at the primary.
  pub perform_all-TakesOver :
      (calls : List Call) (es : List WalEntry)
      → IsTracked codec es w
      → length es + length calls < 2 ^ 64
      → length w.mem.station_list ≤ 2 ^ 31
      → perform_all codec calls w ≡ done true w'
      → Ends (TakesOver w'.mem) (promote_to_leader codec env session m)
  perform_all-TakesOver calls es t room few ran =
      let (fs, tracked, kept) = perform_all-IsTracked codec calls es w w' t room few ran in
      tracked-TakesOver fs tracked kept
