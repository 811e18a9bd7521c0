-- ===== src/System/Refined.antt =====
-- The system refines its description: one map from the clients to their stations, which a failover
-- does not change.
use mathlib.Core.Path.{subst}
use native.Mathlib.Nat.{zero-add}
use snowcast.Prelude.{
  ℕ, ◌+◌, ◌^◌, ◌≤◌, ◌<◌, ◌≡◌, refl, sym, ap, ◌∙◌, true, some, List, [], ◌∷◌, ◌++◌, length, arith,
}
use snowcast.Run.{done}
use snowcast.Protocol.{WalEntry}
use snowcast.State.Roster.{roster}
use snowcast.Wal.Log.{Codec, Log}
use snowcast.Wal.Holds.{Holds}
use snowcast.Replication.Backup.{IsNumbered}
use snowcast.Replication.Commit.{max_seq-numbered}
use snowcast.Replication.Coordinator.{Pair}
use snowcast.Replication.Local.{Local}
use snowcast.Replication.Settles.{coordinator}
use snowcast.Replication.SettlesLocal.{local}
use snowcast.Node.Manager.{Node}
use snowcast.Failover.Answered.{Answered, perform-Answered}
use snowcast.Failover.Tracked.{InStepLog, coordinator-IsLogging}
use snowcast.Failover.Logged.{IsOwnLog, local-IsLogging}
use snowcast.Failover.Requests.{Call, perform_on, spec_call}
use snowcast.System.Steps.{
  System, paired, single, serving_mem, follows, own, stores, Label, spec_label, spec_run, Step,
  called, turned_down, takes_over, restarts, returns, called_alone, turned_down_alone, Reach, here,
  next,
}
use snowcast.System.Restarts.{start-IsSound, run_as_standby-IsSound}
use snowcast.System.Sound.{IsSound, promote_to_leader-IsSingle}

module _ (codec : Codec) (k : ℕ) (few : k ≤ 2 ^ 31) where
  -- The state behind a step is sound, and what the clients see is what the label says.
  abbrev pub Refines : List Label → System → System → Type 0
  Refines ls s s' =
      IsSound codec k s' × (spec_run k ls (roster (serving_mem s)) ≡ some (roster (serving_mem s')))

  below : (l : Log) (es : List WalEntry) → Holds codec l es → IsNumbered 0 es → l.seq ≡ length es
  below l es holds numbered = holds.seq ∙ max_seq-numbered 0 es numbered ∙ zero-add (length es)

  Step-called :
      (c : Call) (w w' : Pair) (m : Node)
      → w.wal.seq + 1 < 2 ^ 64
      → perform_on (coordinator codec) c w ≡ done true w'
      → IsSound codec k (paired w m)
      → IsSound codec k (paired w' (follows w'.backup m))
        × (spec_call k c (roster w.mem) ≡ some (roster w'.mem))
  Step-called c w w' m room ran (es, p) =
      let seq = below w.wal es p.tracked.sync.primary p.tracked.sync.numbered in
      let (e, tracked, stations, spec) =
        subst (Answered (coordinator codec) (InStepLog codec) (coordinator-IsLogging codec) c es w)
          ran
          (perform-Answered (coordinator codec) (InStepLog codec) (coordinator-IsLogging codec) c es
            w p.tracked (omega (arith, room, seq)) (rw p.stations few)) in
      (
        (
          es ++ e ∷ [],
          record {
            tracked = tracked;
            stations = stations ∙ p.stations;
            role = p.role;
            log = refl;
            nobody = p.nobody;
            files = p.files;
          },
        ),
        rw p.stations at spec,
      )

  Step-called_alone :
      (c : Call) (m : Node) (w' : Local)
      → m.pair.wal.seq + 1 < 2 ^ 64
      → perform_on (local codec) c (own m) ≡ done true w'
      → IsSound codec k (single m)
      → IsSound codec k (single (stores w' m))
        × (spec_call k c (roster m.pair.mem) ≡ some (roster w'.mem))
  Step-called_alone c m w' room ran (es, p) =
      let seq = below m.pair.wal es p.kept.sync.holds p.kept.sync.numbered in
      let (e, kept, stations, spec) =
        subst (Answered (local codec) (IsOwnLog codec) (local-IsLogging codec) c es (own m)) ran (
          perform-Answered (local codec) (IsOwnLog codec) (local-IsLogging codec) c es (own m)
            p.kept (omega (arith, room, seq)) (rw p.stations few)) in
      (
        (
          es ++ e ∷ [],
          record {
            kept = kept;
            stations = stations ∙ p.stations;
            role = p.role;
            service = p.service;
          },
        ),
        rw p.stations at spec,
      )

  -- One step.
  pub Step-Refines :
      {l : Label} {s s' : System}
      → Step codec l s s'
      → IsSound codec k s
      → IsSound codec k s'
        × (spec_label k l (roster (serving_mem s)) ≡ some (roster (serving_mem s')))
  Step-Refines (called c room ran) h = Step-called c _ _ _ room ran h
  Step-Refines (turned_down c ran) h = (h, refl)
  Step-Refines (takes_over {w} {m} {m'} env session alone promoted) (es, p) =
      let (single_m, seen) =
        promote_to_leader-IsSingle codec k env session m es w p alone m' promoted in
      ((es, single_m), ap some (sym seen))
  Step-Refines (restarts {w} {w'} {m} files blank outcomes attempts as_many nobody ran) (es, p) =
      let (sound, seen) =
        start-IsSound codec k es w m p files blank as_many nobody outcomes attempts w' ran in
      (sound, ap some (sym seen))
  Step-Refines (returns {w} {m} {m'} {l} cfg pair rounds files nobody opened ran) (es, p) =
      (run_as_standby-IsSound codec k es w m p cfg pair rounds l m' files nobody opened ran, refl)
  Step-Refines (called_alone c room ran) h = Step-called_alone c _ _ room ran h
  Step-Refines (turned_down_alone c ran) h = (h, refl)

  -- For a system of at most 2^31 stations: from a primary and its standby that hold the same
  -- numbered log, to which the primary's memory comes, and where the standby accepts calls and no
  -- write or sync of its file fails, in any sequence of requests that the serving process accepts,
  -- of requests that its checks turn down, of restarts of the primary and of the standby with their
  -- files, and of a failover to the standby, which has no reachable backup, the clients see what
  -- the specification of the requests says of one map from clients to stations, and no failover or
  -- restart changes it. The new pair, or the promoted node and its own log, are again as described.
  pub Reach-Refines :
      {ls : List Label} {s s' : System} → IsSound codec k s → Reach codec s ls s' → Refines ls s s'
  unfolding spec_run
  Reach-Refines h here = (h, refl)
  Reach-Refines h (next step more) =
      let (sound, spec) = Step-Refines step h in
      let (end, rest) = Reach-Refines sound more in (end, rw (spec, spec_run) rest)
