-- ===== src/Replication/Settles.antt =====
-- The two coordinators are what the handlers of internal/control/grpc.go rely on.
use mathlib.Core.Path.{subst}
use snowcast.Prelude.{
  ℕ, ◌≡◌, refl, ap, sym, ◌∙◌, inl, inr, Option, none, some, List, [], ◌∷◌, arith,
}
use snowcast.Run.{Run, done, panic, Go, ◌>>=◌, Result, ok, err}
use snowcast.Protocol.{WalEntry, Error}
use snowcast.State.Store.{State}
use snowcast.Wal.Log.{Codec, Log, append, read_all}
use snowcast.Replication.Coordinator.{
  Delivery, delivered, request_lost, reply_lost, deliver, Pair, raise_last, on_mem, replicate_by,
  send, send_missing, sync_from, sync_backup_wal, backup_last_wal_seq, retry_synced, retry_failed,
  replicate_with_retry, acknowledge, after_apply, after_append, replicate_and_wait,
}
use snowcast.Control.Replicator.{Replicator, IsReplicator, Settled}

module _ (codec : Codec) where
  send-mem : (e : WalEntry) (w : Pair) → ((send codec e w).1).mem ≡ w.mem
  unfolding send
  send-mem e w = by_fate (deliver w.net)
    where
      by_fate : (d : Delivery) → ((replicate_by codec d e w).1).mem ≡ w.mem
      by_fate delivered = refl
      by_fate request_lost = refl
      by_fate reply_lost = refl

  send_missing-mem :
      (n : ℕ) (es : List WalEntry) (w : Pair) → ((send_missing codec n es w).1).mem ≡ w.mem
  unfolding send_missing
  send_missing-mem n [] w = refl
  send_missing-mem n (e ∷ es) w = ground (
    arith,
    send-mem e w,
    send_missing-mem n es w,
    send_missing-mem n es (raise_last e.seq (send codec e w).1),
  )

  sync_from-mem : (r : Result Error ℕ × Pair) → ((sync_from codec r).1).mem ≡ (r.1).mem
  unfolding sync_from
  sync_from-mem (err x, w) = refl
  sync_from-mem (ok n, w) = by_read (read_all codec w.wal) refl
    where
      by_read :
          (r : Result Error (List WalEntry) × Log)
          → read_all codec w.wal ≡ r
          → ((sync_from codec (ok n, w)).1).mem ≡ w.mem
      by_read (err x, l) e = rw (e, sync_from) refl
      by_read (ok es, l) e =
          rw (e, sync_from) (send_missing-mem n es (record w { wal = (read_all codec w.wal).1 }))

  sync_backup_wal-mem : (w : Pair) → ((sync_backup_wal codec w).1).mem ≡ w.mem
  unfolding sync_backup_wal backup_last_wal_seq
  sync_backup_wal-mem w = sync_from-mem (backup_last_wal_seq w)

  retry_synced-mem :
      (e : WalEntry) (r : Option Error × Pair) → ((retry_synced codec e r).1).mem ≡ (r.1).mem
  unfolding retry_synced
  retry_synced-mem e (some x, w) = refl
  retry_synced-mem e (none, w) = send-mem e w

  retry_failed-mem :
      (e : WalEntry) (r : Option Error × Pair) → ((retry_failed codec e r).1).mem ≡ (r.1).mem
  unfolding retry_failed
  retry_failed-mem e (none, w) = refl
  retry_failed-mem e (some x, w) =
      retry_synced-mem e (sync_backup_wal codec w) ∙ sync_backup_wal-mem w

  replicate_with_retry-mem :
      (e : WalEntry) (w : Pair) → ((replicate_with_retry codec e w).1).mem ≡ w.mem
  unfolding replicate_with_retry
  replicate_with_retry-mem e w = retry_failed-mem e (send codec e w) ∙ send-mem e w

  -- The replicator of a primary with a backup.
  abbrev pub coordinator : Replicator Pair
  coordinator = record {
    mem = λ w. w.mem;
    with_mem = λ s w. record w { mem = s };
    replicate_and_wait = replicate_and_wait codec;
  }

  module _ (entry : WalEntry) (apply : Go State (Option Error)) (rollback : Go State (Unit {0}))
      (w : Pair) where
    acknowledged :
        (n : ℕ) (m : State) (r : Option Error × Pair)
        → apply w.mem ≡ done none m
        → (r.1).mem ≡ m
        → Settled coordinator apply rollback w (acknowledge n rollback r)
    unfolding acknowledge
    acknowledged n m (none, v) e same = subst (λ t. apply w.mem ≡ done none t) (sym same) e
    acknowledged n m (some x, v) e same = by_rollback (rollback v.mem) refl
      where
        by_rollback :
            (q : Run State (Unit {0}))
            → rollback v.mem ≡ q
            → Settled coordinator apply rollback w (acknowledge n rollback (some x, v))
        by_rollback (done u t) f = rw f (inr (inr (none, m, e, ap rollback (sym same) ∙ f)))
        by_rollback (panic t) f = rw f (inr (none, m, t, e, ap rollback (sym same) ∙ f))

    applied :
        (e : WalEntry) (l : Log) (q : Run State (Option Error))
        → apply w.mem ≡ q
        → Settled coordinator apply rollback w
            ((on_mem apply >>= after_apply codec e rollback) (record w { wal = l }))
    unfolding after_apply
    applied e l (done none m) f = rw f (
        acknowledged e.seq m (replicate_with_retry codec e (record w { mem = m; wal = l })) f
          (replicate_with_retry-mem e (record w { mem = m; wal = l })))
    applied e l (done (some x) m) f = rw f (inr (inl (x, f)))
    applied e l (panic m) f = rw f (inl (m, f))

    appended :
        (r : Result Error ℕ × Log)
        → Settled coordinator apply rollback w (after_append codec entry apply rollback w r)
    unfolding after_append
    appended (err x, l) = inl refl
    appended (ok seq, l) = applied (record entry { seq = seq }) l (apply w.mem) refl

    replicate_and_wait-Settled :
        Settled coordinator apply rollback w (replicate_and_wait codec entry apply rollback w)
    unfolding replicate_and_wait
    replicate_and_wait-Settled = appended (append codec entry w.wal)

  -- Whatever the state of the log, the backup and the network, ReplicateAndWait of the coordinator
  -- settles an operation the way that the handlers rely on: no error means that apply took effect
  -- without an error; an error means that the state is untouched, that it is what an apply that
  -- returned an error left, or that apply ran and then rollback; a panic is one of apply or of
  -- rollback.
  pub coordinator-IsReplicator : IsReplicator coordinator
  coordinator-IsReplicator = record {
    mem-with_mem = λ s w. refl;
    settled = replicate_and_wait-Settled;
  }
