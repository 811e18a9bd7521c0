-- ===== src/Failover/Logged.antt =====
-- A promoted server without a backup, whose memory is what its log comes to.
use native.Mathlib.Nat.{zero-add}
use snowcast.Prelude.{
  ◌+◌, ◌^◌, ◌<◌, ◌≡◌, refl, ap, ◌∙◌, Option, none, some, List, [], ◌∷◌, ◌++◌, length, arith,
}
use mathlib.Core.Path.{subst}
use snowcast.Run.{Run, done, panic, Go, ◌>>=◌, Result, ok, err}
use snowcast.Protocol.{WalEntry, WalOp, Error}
use snowcast.State.Store.{State}
use snowcast.Wal.Log.{Codec, Log, append}
use snowcast.Wal.Holds.{Holds}
use snowcast.Wal.Append.{numbered, Appended, append-Appended}
use snowcast.Control.Handlers.{entry_of}
use snowcast.Replication.Backup.{IsNumbered}
use snowcast.Replication.Commit.{max_seq-numbered, IsNumbered-snoc}
use snowcast.Replication.Local.{Local, on_mem, after_apply, after_append, replicate_and_wait}
use snowcast.Replication.SettlesLocal.{local}
use snowcast.Failover.Kept.{IsKept, IsLogging, Logged, then_op}

module _ (codec : Codec) where
  -- The log of the process has these entries, numbered from 1.
  pub record IsOwnLog (es : List WalEntry) (w : Local) : Type 0 where
    pub holds : Holds codec w.wal es
    pub numbered : IsNumbered 0 es

  abbrev pub IsOnItsOwn : List WalEntry → Local → Type 0
  IsOnItsOwn = IsKept (local codec) IsOwnLog

  module _ (op : WalOp) (apply : Go State (Option Error)) (rollback : Go State (Unit {0}))
      (es : List WalEntry) (w : Local) (i : IsOwnLog es w) where
    undone :
        (x : Error) (l : Log) (m : State) (q : Run State (Unit {0}))
        → rollback m ≡ q
        → Logged
            (local codec)
            IsOwnLog
            op
            apply
            es
            w
            (after_apply rollback (some x) (record w { mem = m; wal = l }))
    unfolding after_apply
    undone x l m (done u t) e = rw e tt
    undone x l m (panic t) e = rw e tt

    applied :
        (l : Log) (q : Run State (Option Error))
        → Holds codec l (then_op es op)
        → apply w.mem ≡ q
        → Logged
            (local codec)
            IsOwnLog
            op
            apply
            es
            w
            ((on_mem apply >>= after_apply rollback) (record w { wal = l }))
    unfolding after_apply
    applied l (done none m) holds e = rw e (
      record {
        holds = holds;
        numbered =
            IsNumbered-snoc 0 es (numbered (length es + 1) (entry_of op)) i.numbered (omega arith);
      },
      e,
    )
    applied l (done (some x) m) holds e = rw e (undone x l m (rollback m) refl)
    applied l (panic m) holds e = rw e tt

    appended :
        (r : Result Error _ × Log)
        → w.wal.seq ≡ length es
        → Appended codec (entry_of op) w.wal es r
        → Logged (local codec) IsOwnLog op apply es w (after_append apply rollback w r)
    unfolding after_append
    appended (err x, l) next a = tt
    appended (ok seq, l) next a =
        let n : seq ≡ length es + 1 = a.0 ∙ ap (λ k. k + 1) next in
        applied l (apply w.mem)
          (subst (λ k. Holds codec l (es ++ numbered k (entry_of op) ∷ [])) n a.1) refl

    replicate_and_wait-Logged :
        length es + 1 < 2 ^ 64
        → Logged
            (local codec)
            IsOwnLog
            op
            apply
            es
            w
            (replicate_and_wait codec (entry_of op) apply rollback w)
    unfolding replicate_and_wait
    replicate_and_wait-Logged room =
        let seq : w.wal.seq ≡ length es =
          i.holds.seq ∙ max_seq-numbered 0 es i.numbered ∙ zero-add (length es) in
        appended (append codec (entry_of op) w.wal) seq
          (append-Appended codec (entry_of op) w.wal es i.holds (omega arith))

  pub local-IsLogging : IsLogging (local codec) IsOwnLog
  local-IsLogging = record {
    mem-with_mem = λ s w. refl;
    log-with_mem = λ s es w i. record { holds = i.holds; numbered = i.numbered };
    logged = replicate_and_wait-Logged;
  }
