-- ===== src/System/Steps.antt =====
-- The steps of the system: requests to whichever process serves, a failover, and the restart of a
-- process of the pair. A request whose
-- checks pass and that fails behind them is no step: its entry may be in a log whose memory has
-- been rolled back.
use snowcast.Prelude.{
  ℕ, ◌+◌, ◌^◌, ◌<◌, ◌≡◌, Text, Bool, true, false, Option, none, some, List, [], ◌∷◌, length,
}
use snowcast.Run.{done, ok}
use snowcast.State.Store.{State, init_stations}
use snowcast.State.Roster.{Roster}
use snowcast.Wal.File.{Outcome}
use snowcast.Wal.Log.{Codec, Log, open_log}
use snowcast.Replication.Server.{InboundHandler, start_repl_server}
use snowcast.Replication.Coordinator.{Pair}
use snowcast.Replication.Dial.{Attempt, start}
use snowcast.Replication.Settles.{coordinator}
use snowcast.Replication.Local.{Local, new_local_from_log}
use snowcast.Replication.SettlesLocal.{local}
use snowcast.Leadership.Session.{Session}
use snowcast.Node.Manager.{
  Node, Config, Surroundings, server_of, promote_to_leader, new, run_as_standby,
}
use snowcast.Node.Promote.{IsAlone}
use snowcast.Failover.Requests.{Call, perform_on, spec_call}

-- A primary with its standby, or a promoted node that serves with its log only.
pub data System : Type 0 where
  paired : Pair → Node → System
  single : Node → System

-- What the clients see of the process that serves them.
abbrev pub serving_mem : System → State
serving_mem (paired w m) = w.mem
serving_mem (single m) = m.pair.mem

-- The standby behind a call of the primary: its log and its replication server are the backup of
-- the pair.
abbrev pub follows : InboundHandler → Node → Node
follows h m = record m { pair = record (m.pair) { wal = h.wal }; repl_server = some (server_of h) }

-- The local coordinator of a promoted node, and the node behind one of its requests.
abbrev pub own : Node → Local
own m = new_local_from_log m.pair.wal m.pair.mem

abbrev pub stores : Local → Node → Node
stores w m = record m { pair = record (m.pair) { mem = w.mem; wal = w.wal } }

pub data Label : Type 0 where
  served : Call → Label
  refused : Call → Label
  failover : Label
  restart : Label

-- What a step means for the clients of a system with `k` stations.
abbrev pub spec_label : ℕ → Label → Roster → Option Roster
spec_label k (served c) r = spec_call k c r
spec_label k (refused c) r = some r
spec_label k failover r = some r
spec_label k restart r = some r

unfoldable pub spec_run : ℕ → List Label → Roster → Option Roster
spec_run k [] r = some r
spec_run k (l ∷ ls) r =
    let rest = λ (q : Roster). spec_run k ls q in
    elim (spec_label k l r) [ none ↦ none | some q ↦ rest q ]

module _ (codec : Codec) where
  pub data Step : Label → System → System → Type 0 where
    called :
        {w w' : Pair} {m : Node} (c : Call)
        → w.wal.seq + 1 < 2 ^ 64
        → perform_on (coordinator codec) c w ≡ done true w'
        → Step (served c) (paired w m) (paired w' (follows w'.backup m))
    turned_down :
        {w : Pair} {m : Node} (c : Call)
        → perform_on (coordinator codec) c w ≡ done false w
        → Step (refused c) (paired w m) (paired w m)
    -- The primary is gone; the standby has the session and no backup of its own.
    takes_over :
        {w : Pair} {m m' : Node} (env : Surroundings) (session : Session)
        → IsAlone env m
        → promote_to_leader codec env session m ≡ done none m'
        → Step failover (paired w m) (single m')
    -- The process of the primary starts again, with its file and an empty memory.
    restarts :
        {w w' : Pair} {m : Node} (files : List Text) (blank : State) (outcomes : List Outcome)
        (attempts : List Attempt)
        → length files ≡ length w.mem.station_list
        → blank.current_clients ≡ []
        → start codec w.wal.file.content outcomes attempts
            (record w { mem = init_stations files blank; last_wal_seq = 0 })
          ≡ done none w'
        → Step restart (paired w m) (paired w' (follows w'.backup m))
    -- The process of the standby starts again, with its file; no write of it fails from here on.
    returns :
        {w : Pair} {m m' : Node} {l : Log} (cfg : Config) (pair : Pair) (rounds : List Bool)
        → length cfg.files ≡ length m.cfg.files
        → pair.mem.current_clients ≡ []
        → open_log codec w.backup.wal.file.content [] ≡ ok l
        → run_as_standby rounds (new cfg (record pair { wal = l })) ≡ done none m'
        → Step restart (paired w m) (paired (record w { backup = start_repl_server l }) m')
    called_alone :
        {m : Node} {w' : Local} (c : Call)
        → m.pair.wal.seq + 1 < 2 ^ 64
        → perform_on (local codec) c (own m) ≡ done true w'
        → Step (served c) (single m) (single (stores w' m))
    turned_down_alone :
        {m : Node} (c : Call)
        → perform_on (local codec) c (own m) ≡ done false (own m)
        → Step (refused c) (single m) (single m)

  pub data Reach : System → List Label → System → Type 0 where
    here : {s : System} → Reach s [] s
    next :
        {s t u : System} {l : Label} {ls : List Label}
        → Step l s t
        → Reach t ls u
        → Reach s (l ∷ ls) u
