-- ===== src/Node/Promote.antt =====
-- What a promotion leaves: the node's role, its memory, and the service that it runs.
use mathlib.Core.Path.{subst}
use snowcast.Prelude.{
  ◌≡◌, refl, ap, ◌∙◌, ◌⊎◌, inl, inr, Bool, true, false, Option, none, some, is_some, arith, List,
  [], text_eq, Bool-cases,
}
use snowcast.Run.{and_then, done, Ends, ends, Ends-done}
use snowcast.Protocol.{WalEntry, Error, apply_wal_seq}
use snowcast.State.Store.{State, init_stations}
use snowcast.State.Invariant.{IsConsistent}
use snowcast.State.Roster.{Roster, roster}
use snowcast.State.Boot.{init_stations-IsConsistent, roster-init_stations}
use snowcast.Wal.Log.{Codec}
use snowcast.Wal.Holds.{Holds, read_all-Holds}
use snowcast.Replication.Coordinator.{lift_mem, replay}
use snowcast.Replication.Dial.{dial_backup}
use snowcast.Replication.Recovery.{spec_replay, IsValidLog, Replayed, replay-Replayed}
use snowcast.Leadership.Session.{Session}
use snowcast.Node.Manager.{
  Node, leader, standby, Service, local_only, Surroundings, take_over, promote_from, lift_pair,
  serve_clients, connect, after_replay, promote_read, promote_to_leader,
}

-- There is no address of a backup, or it cannot be reached.
abbrev pub IsAlone : Surroundings → Node → Type 0
IsAlone env m =
    (text_eq m.cfg.backup_addr [] ≡ true) ⊎ ((x : Error) × (dial_backup env.attempts ≡ some x))

-- By what the log comes to, and by whether the ports can be opened.
abbrev pub Serving : Option Roster → Bool → Option Service → Option Error → Node → Type 0
Serving none serves before err m' = (is_some err ≡ true) × (m'.client_srv ≡ before)
Serving (some r) false before err m' = (is_some err ≡ true) × (m'.client_srv ≡ before)
Serving (some r) true before err m' =
    (err ≡ none) × (m'.client_srv ≡ some local_only) × (roster m'.pair.mem ≡ r)

-- The outcome of a promotion of `m` with `session`.
pub record Promoted (its : Session) (m : Node) (o : Option Roster) (serves : Bool)
    (err : Option Error) (m' : Node) : Type 0 where
  pub role : m'.role ≡ leader
  pub session : m'.session ≡ some its
  pub repl_server : m'.repl_server ≡ none
  pub consistent : IsConsistent m'.pair.mem
  pub outcome : Serving o serves m.client_srv err m'

module _ (codec : Codec) (env : Surroundings) where
  pub connect-alone : (m : Node) → IsAlone env m → connect codec env.attempts m ≡ done local_only m
  unfolding connect
  connect-alone m (inl no_address) = rw no_address refl
  connect-alone m (inr (x, unreached)) = elim (Bool-cases (text_eq m.cfg.backup_addr [])) [
    | inl no_address ↦ rw no_address refl
    | inr address ↦ rw (address, unreached) refl
  ]

  module _ (session : Session) (m : Node) where
    served :
        (r : Roster) (serves : Bool) (v : Node)
        → v.role ≡ leader
        → v.session ≡ some session
        → v.repl_server ≡ none
        → v.client_srv ≡ m.client_srv
        → IsConsistent v.pair.mem
        → roster v.pair.mem ≡ r
        → Ends
            (λ err m'. Promoted session m (some r) serves err m')
            (serve_clients serves local_only v)
    unfolding serve_clients
    served r true v role its none_left before h seen = ends (record {
      role = role;
      session = its;
      repl_server = none_left;
      consistent = h;
      outcome = (refl, refl, seen);
    })
    served r false v role its none_left before h seen = ends (record {
      role = role;
      session = its;
      repl_server = none_left;
      consistent = h;
      outcome = (refl, before);
    })

    after_replay-Promoted :
        (o : Option Roster) (err : Option Error) (v : Node)
        → IsAlone env v
        → v.role ≡ leader
        → v.session ≡ some session
        → v.repl_server ≡ none
        → v.client_srv ≡ m.client_srv
        → IsConsistent v.pair.mem
        → Replayed o err v.pair.mem
        → Ends (λ x m'. Promoted session m o env.serves x m') (after_replay codec env err v)
    unfolding after_replay
    after_replay-Promoted none none v alone role its none_left before h failed =
        absurd (ground (arith, failed))
    after_replay-Promoted none (some x) v alone role its none_left before h failed = ends (record {
      role = role;
      session = its;
      repl_server = none_left;
      consistent = h;
      outcome = (refl, before);
    })
    after_replay-Promoted (some r) (some x) v alone role its none_left before h (fine, seen) =
        absurd (ground (arith, fine))
    after_replay-Promoted (some r) none v alone role its none_left before h (fine, seen) =
        rw (connect-alone v alone) (served r env.serves v role its none_left before h seen)

    -- The node behind the replay.
    abbrev pub caught_up : State → Node
    caught_up t = record m {
      pair = record (m.pair) { mem = t };
      session = some session;
      role = leader;
      keeping = true;
      repl_server = none;
    }

    pub promote_to_leader-replayed :
        (es : List WalEntry) (x : Option Error) (t : State)
        → m.role ≡ standby
        → Holds codec m.pair.wal es
        → replay apply_wal_seq es (init_stations m.cfg.files m.pair.mem) ≡ done x t
        → promote_to_leader codec env session m ≡ after_replay codec env x (caught_up t)
    unfolding promote_to_leader promote_from promote_read take_over
    promote_to_leader-replayed es x t is_standby holds ran =
        ap (λ r. promote_from codec env session r m) is_standby
        ∙ ap (promote_read codec env (take_over session m))
            (read_all-Holds codec m.pair.wal es holds)
        ∙ ap
            (λ q.
              and_then (lift_pair (take_over session m) (lift_mem m.pair q))
                (after_replay codec env))
            ran

    -- A standby whose log holds es, whose memory has no clients and for whose stations the log is
    -- valid, and which has no backup or cannot reach it, is promoted without a panic: it is leader
    -- with the session, its replication server is gone and its memory is consistent; where the log
    -- replays and the ports open, it serves with its log only and every client is where the log
    -- says; where not, there is an error and the service is as before.
    pub promote_to_leader-Promoted :
        (es : List WalEntry)
        → m.role ≡ standby
        → Holds codec m.pair.wal es
        → m.pair.mem.current_clients ≡ []
        → IsValidLog (init_stations m.cfg.files m.pair.mem).station_list es
        → IsAlone env m
        → Ends
            (λ x m'. Promoted session m (spec_replay es (λ k. none)) env.serves x m')
            (promote_to_leader codec env session m)
    promote_to_leader-Promoted es is_standby holds nobody valid alone =
        let boot = init_stations m.cfg.files m.pair.mem in
        let (x, t, ran, (h, replayed)) = Ends-done (
          replay-Replayed apply_wal_seq es boot
            (init_stations-IsConsistent m.cfg.files m.pair.mem nobody) valid) in
        rw (promote_to_leader-replayed es x t is_standby holds ran) (
          after_replay-Promoted (spec_replay es (λ k. none)) x (caught_up t) alone refl refl refl
            refl h
            (subst (λ (q : Roster). Replayed (spec_replay es q) x t)
              (roster-init_stations m.cfg.files m.pair.mem nobody) replayed))
