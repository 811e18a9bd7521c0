-- ===== src/Failover/Kept.antt =====
-- What a replicator does to its log, and a server whose memory is what its log comes to: without an
-- error `ReplicateAndWait` keeps it so.
use mathlib.Core.Option.{some_inj}
use snowcast.Prelude.{
  ◌+◌, ◌^◌, ◌<◌, ◌≡◌, refl, sym, ap, ◌∙◌, inl, inr, Option-cases, Option, none, some, List, [], ◌∷◌,
  ◌++◌, length, arith,
}
use snowcast.Run.{Run, done, panic, Go, Ends-done, done-state, done-value}
use snowcast.Protocol.{WalEntry, WalOp, Error}
use snowcast.State.Store.{State, Station, ClientInfo}
use snowcast.State.Apply.{apply_wal_op}
use snowcast.State.Invariant.{IsConsistent}
use snowcast.State.Allocate.{allocate, IsConsistent-allocate, roster-allocate}
use snowcast.State.Roster.{Roster, roster, spec_op, IsValidOp, Agrees, apply_wal_op-Refines}
use snowcast.Wal.Append.{numbered}
use snowcast.Control.Handlers.{entry_of}
use snowcast.Control.Replicator.{Replicator}
use snowcast.Replication.Recovery.{spec_replay, IsValidLog, IsValidLog-length}

pub spec_replay-snoc :
    (es : List WalEntry) (e : WalEntry) (r q q' : Roster)
    → spec_replay es r ≡ some q
    → spec_op e.op q ≡ some q'
    → spec_replay (es ++ e ∷ []) r ≡ some q'
unfolding spec_replay
spec_replay-snoc [] e r q q' before step =
    let same : r ≡ q = some_inj.0 before in rw (same, spec_replay, step) refl
spec_replay-snoc (x ∷ es) e r q q' before step = elim (Option-cases (spec_op x.op r)) [
  | inl refused ↦ absurd (ground (arith, rw (refused, spec_replay) at before))
  | inr (p, first) ↦
      rw (first, spec_replay)
        (spec_replay-snoc es e p q q' (rw (first, spec_replay) at before) step)
]

pub IsValidLog-snoc :
    (l : List Station) (es : List WalEntry) (e : WalEntry)
    → IsValidLog l es
    → IsValidOp l e.op
    → IsValidLog l (es ++ e ∷ [])
IsValidLog-snoc l [] e h v = (v, tt)
IsValidLog-snoc l (x ∷ es) e h v = (h.0, IsValidLog-snoc l es e h.1 v)

-- The log with the operation, under the next number.
abbrev pub then_op : List WalEntry → WalOp → List WalEntry
then_op es op = es ++ numbered (length es + 1) (entry_of op) ∷ []

module _ {S : Type 0} (repl : Replicator S) (IsLog : List WalEntry → S → Type 0) where
  open repl use {mem, with_mem, replicate_and_wait}

  -- Without an error the operation is behind the log, and it was applied.
  abbrev pub Logged :
      WalOp → Go State (Option Error) → List WalEntry → S → Run S (Option Error) → Type 0
  Logged op apply es w (done none w') =
      IsLog (then_op es op) w' × (apply (mem w) ≡ done none (mem w'))
  Logged op apply es w (done (some x) w') = Unit
  Logged op apply es w (panic w') = Unit

  -- What a replicator with a log promises.
  pub record IsLogging : Type 0 where
    pub mem-with_mem : (s : State) (w : S) → mem (with_mem s w) ≡ s
    pub log-with_mem :
        (s : State) (es : List WalEntry) (w : S) → IsLog es w → IsLog es (with_mem s w)
    pub logged :
        (op : WalOp) (apply : Go State (Option Error)) (rollback : Go State (Unit {0}))
        (es : List WalEntry) (w : S)
        → IsLog es w
        → length es + 1 < 2 ^ 64
        → Logged op apply es w (replicate_and_wait (entry_of op) apply rollback w)

  pub record IsKept (es : List WalEntry) (w : S) : Type 0 where
    pub sync : IsLog es w
    pub consistent : IsConsistent (mem w)
    pub valid : IsValidLog (mem w).station_list es
    pub agrees : spec_replay es (λ k. none) ≡ some (roster (mem w))

  -- Without an error the log has the operation and comes to the memory again; the number of
  -- stations is as before.
  abbrev pub Acknowledged : WalOp → List WalEntry → S → Run S (Option Error) → Type 0
  Acknowledged op es w (done none w') =
      IsKept (then_op es op) w'
      × (length (mem w').station_list ≡ length (mem w).station_list)
      × (spec_op op (roster (mem w)) ≡ some (roster (mem w')))
  Acknowledged op es w (done (some x) w') = Unit
  Acknowledged op es w (panic w') = Unit

  module _ (law : IsLogging) where
    -- A record that nothing refers to leaves it so.
    pub IsKept-allocate :
        (c : ClientInfo) (es : List WalEntry) (w : S)
        → IsKept es w
        → IsKept es (with_mem (allocate c (mem w)) w)
    IsKept-allocate c es w t =
        let same = law.mem-with_mem (allocate c (mem w)) w in
        record {
          sync = law.log-with_mem (allocate c (mem w)) es w t.sync;
          consistent = rw same (IsConsistent-allocate c (mem w) t.consistent);
          valid = rw same t.valid;
          agrees = rw same (t.agrees ∙ ap some (sym (roster-allocate c (mem w) t.consistent)));
        }

    module _ (op : WalOp) (es : List WalEntry) (w : S) (t : IsKept es w)
        (v : IsValidOp (mem w).station_list op) where
      spec_op-agreed :
          (x : Option Error) (m : State) (o : Option Roster)
          → x ≡ none
          → spec_op op (roster (mem w)) ≡ o
          → Agrees o (mem w) x m
          → spec_op op (roster (mem w)) ≡ some (roster m)
      spec_op-agreed x m none fine spec (failed, same) = absurd (ground (arith, rw fine at failed))
      spec_op-agreed x m (some r) fine spec (e, seen) = spec ∙ ap some (sym seen)

      module _ (apply : Go State (Option Error)) (rollback : Go State (Unit {0}))
          (is_op : apply (mem w) ≡ apply_wal_op op (mem w)) where
        acknowledged : (q : Run S (Option Error)) → Logged op apply es w q → Acknowledged op es w q
        acknowledged (panic w') c = tt
        acknowledged (done (some x) w') c = tt
        acknowledged (done none w') (sync, applied) =
            let (x, m, ran, r) = Ends-done (apply_wal_op-Refines op (mem w) t.consistent v) in
            let ended = sym applied ∙ is_op ∙ ran in
            let at : mem w' ≡ m = done-state ended in
            let spec =
              spec_op-agreed x m (spec_op op (roster (mem w))) (sym (done-value ended)) refl
                r.agrees in
            let stations : length (mem w').station_list ≡ length (mem w).station_list =
              rw at r.stations in
            (
              record {
                sync = sync;
                consistent = rw at r.consistent;
                valid = IsValidLog-length (mem w).station_list (mem w').station_list _ stations (
                    IsValidLog-snoc (mem w).station_list es (numbered (length es + 1) (entry_of op))
                      t.valid v);
                agrees =
                    spec_replay-snoc es (numbered (length es + 1) (entry_of op)) (λ k. none)
                      (roster (mem w)) (roster (mem w')) t.agrees (rw at spec);
              },
              stations,
              rw at spec,
            )

        pub replicate_and_wait-Acknowledged :
            length es + 1 < 2 ^ 64
            → Acknowledged op es w (replicate_and_wait (entry_of op) apply rollback w)
        replicate_and_wait-Acknowledged room =
            acknowledged _ (law.logged op apply rollback es w t.sync room)
