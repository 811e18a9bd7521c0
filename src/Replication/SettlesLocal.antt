-- ===== src/Replication/SettlesLocal.antt =====
-- The local coordinator is what the handlers of internal/control/grpc.go rely on.
use snowcast.Prelude.{◌≡◌, refl, inl, inr, Option, none, some}
use snowcast.Run.{Run, done, panic, Go, ◌>>=◌, Result, ok, err}
use snowcast.Protocol.{WalEntry, Error}
use snowcast.State.Store.{State}
use snowcast.Wal.Log.{Codec, Log, append}
use snowcast.Replication.Local.{Local, on_mem, after_apply, after_append, replicate_and_wait}
use snowcast.Control.Replicator.{Replicator, IsReplicator, Settled}

module _ (codec : Codec) where
  -- The replicator of a server without a backup.
  abbrev pub local : Replicator Local
  local = record {
    mem = λ w. w.mem;
    with_mem = λ s w. record w { mem = s };
    replicate_and_wait = replicate_and_wait codec;
  }

  module _ (entry : WalEntry) (apply : Go State (Option Error)) (rollback : Go State (Unit {0}))
      (w : Local) where
    undone :
        (x : Error) (l : Log) (m : State) (q : Run State (Unit {0}))
        → apply w.mem ≡ done (some x) m
        → rollback m ≡ q
        → Settled local apply rollback w
            (after_apply rollback (some x) (record w { mem = m; wal = l }))
    unfolding after_apply
    undone x l m (done u t) e f = rw f (inr (inr (some x, m, e, f)))
    undone x l m (panic t) e f = rw f (inr (some x, m, t, e, f))

    applied :
        (l : Log) (q : Run State (Option Error))
        → apply w.mem ≡ q
        → Settled local apply rollback w
            ((on_mem apply >>= after_apply rollback) (record w { wal = l }))
    unfolding after_apply
    applied l (done none m) e = rw e e
    applied l (done (some x) m) e = rw e (undone x l m (rollback m) e refl)
    applied l (panic m) e = rw e (inl (m, e))

    appended :
        (r : Result Error _ × Log)
        → Settled local apply rollback w (after_append apply rollback w r)
    unfolding after_append
    appended (err x, l) = inl refl
    appended (ok seq, l) = applied l (apply w.mem) refl

    replicate_and_wait-Settled :
        Settled local apply rollback w (replicate_and_wait codec entry apply rollback w)
    unfolding replicate_and_wait
    replicate_and_wait-Settled = appended (append codec entry w.wal)

  -- Whatever the state of its log, ReplicateAndWait of the local coordinator settles an operation
  -- the way that the handlers rely on: no error means that apply took effect without an error; an
  -- error means that the state is untouched, that it is what an apply that returned an error left,
  -- or that apply ran and then rollback; a panic is one of apply or of rollback.
  pub local-IsReplicator : IsReplicator local
  local-IsReplicator = record { mem-with_mem = λ s w. refl; settled = replicate_and_wait-Settled }
