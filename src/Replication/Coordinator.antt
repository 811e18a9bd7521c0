-- ===== src/Replication/Coordinator.antt =====
-- internal/replication/coordinator.go: the primary's side. The backup is reached by calls that can
-- be lost on the way there or on the way back.
use snowcast.Prelude.{ℕ, true, false, Option, none, some, List, [], ◌∷◌, ltb, leb, if◌then◌else◌}
use snowcast.Run.{Run, done, panic, Go, pure, ◌>>=◌, ◌>>◌, Result, ok, err}
use snowcast.Protocol.{
  WalEntry, ReplicateResponse, Error, rpc_failed, backup_rejected, wal_append, replication_failed,
  recover_seq, recover_failed, sync_backup,
}
use snowcast.State.Store.{State}
use snowcast.State.Apply.{apply_wal_entry}
use snowcast.Wal.Log.{Codec, Log, append, read_all}
use snowcast.Replication.Server.{InboundHandler, replicate, ping}

-- What the network does to a call.
pub data Delivery : Type 0 where
  delivered : Delivery
  request_lost : Delivery
  reply_lost : Delivery

-- The process of the primary and the handler of its backup. `net` is the fate of the coming calls;
-- all are delivered when it has run out.
pub record Pair : Type 0 where
  pub mem : State
  pub wal : Log
  pub last_wal_seq : ℕ  -- uint64
  pub backup : InboundHandler
  pub net : List Delivery

abbrev pub deliver : List Delivery → Delivery
deliver [] = delivered
deliver (d ∷ ds) = d

abbrev pub drop_call : List Delivery → List Delivery
drop_call [] = []
drop_call (d ∷ ds) = ds

-- Code that runs on the package state alone.
abbrev pub lift_mem : {A : Type 0} → Pair → Run State A → Run Pair A
lift_mem w (done a s) = done a (record w { mem = s })
lift_mem w (panic s) = panic (record w { mem = s })

abbrev pub on_mem : {A : Type 0} → Go State A → Go Pair A
on_mem m w = lift_mem w (m w.mem)

-- What `replicate` makes of a response.
unfoldable pub response_error : ℕ → ReplicateResponse → Option Error
response_error seq resp =
    if resp.ok
    then none
    else elim resp.error [ some e ↦ some e | none ↦ some (backup_rejected seq) ]

abbrev pub raise_last : ℕ → Pair → Pair
raise_last n w = record w { last_wal_seq = if ltb w.last_wal_seq n then n else w.last_wal_seq }

-- `backupLastWalSeq`.
unfoldable pub backup_last_wal_seq : Pair → Result Error ℕ × Pair
backup_last_wal_seq w = (
  elim (deliver w.net) [ delivered ↦ ok (ping w.backup) | _ ↦ err rpc_failed ],
  record w { net = drop_call w.net },
)

-- The end of `ReplicateAndWait`, by the outcome of the replication.
unfoldable pub acknowledge : ℕ → Go State (Unit {0}) → Option Error × Pair → Run Pair (Option Error)
acknowledge seq rollback (none, w) = done none (raise_last seq w)
acknowledge seq rollback (some e, w) = (on_mem rollback >> pure (some (replication_failed e))) w

module _ (codec : Codec) where
  -- `c.replicate`, by the fate of its call.
  unfoldable pub replicate_by : Delivery → WalEntry → Pair → Option Error × Pair
  unfolding response_error
  replicate_by delivered entry w =
      let (resp, h) = replicate codec (some entry) w.backup in
      (response_error entry.seq resp, record w { backup = h; net = drop_call w.net })
  replicate_by request_lost entry w = (some rpc_failed, record w { net = drop_call w.net })
  replicate_by reply_lost entry w =
      let (resp, h) = replicate codec (some entry) w.backup in
      (some rpc_failed, record w { backup = h; net = drop_call w.net })

  unfoldable pub send : WalEntry → Pair → Option Error × Pair
  unfolding replicate_by
  send entry w = replicate_by (deliver w.net) entry w

  -- The loop of `syncBackupWal`.
  unfoldable pub send_missing : ℕ → List WalEntry → Pair → Option Error × Pair
  send_missing last_seq [] w = (none, w)
  send_missing last_seq (entry ∷ entries) w =
      let rest = λ (v : Pair). send_missing last_seq entries v in
      let (sent, w') = send entry w in
      elim (leb entry.seq last_seq) [
        | true ↦ rest w
        | false ↦ elim sent [ some e ↦ (some e, w') | none ↦ rest (raise_last entry.seq w') ]
      ]

  unfoldable pub sync_from : Result Error ℕ × Pair → Option Error × Pair
  unfolding send_missing
  sync_from (err e, w) = (some e, w)
  sync_from (ok last_seq, w) =
      let (entries, l) = read_all codec w.wal in
      elim entries [
        | err e ↦ (some e, record w { wal = l })
        | ok es ↦ send_missing last_seq es (record w { wal = l })
      ]

  unfoldable pub sync_backup_wal : Pair → Option Error × Pair
  unfolding sync_from
  sync_backup_wal w = sync_from (backup_last_wal_seq w)

  -- A single retry, after a sync: the three parts of `replicateWithRetry`, by what came before.
  unfoldable pub retry_synced : WalEntry → Option Error × Pair → Option Error × Pair
  retry_synced entry (some e, w) = (some e, w)
  retry_synced entry (none, w) = send entry w

  unfoldable pub retry_failed : WalEntry → Option Error × Pair → Option Error × Pair
  retry_failed entry (none, w) = (none, w)
  retry_failed entry (some e, w) = retry_synced entry (sync_backup_wal w)

  unfoldable pub replicate_with_retry : WalEntry → Pair → Option Error × Pair
  replicate_with_retry entry w = retry_failed entry (send entry w)

  -- `ReplicateAndWait` behind `apply`, and behind `Append`.
  unfoldable pub after_apply :
      WalEntry → Go State (Unit {0}) → Option Error → Go Pair (Option Error)
  unfolding acknowledge
  after_apply entry rollback (some e) = pure (some e)
  after_apply entry rollback none =
      λ w. acknowledge entry.seq rollback (replicate_with_retry entry w)

  unfoldable pub after_append :
      WalEntry
      → Go State (Option Error)
      → Go State (Unit {0})
      → Pair
      → Result Error ℕ × Log
      → Run Pair (Option Error)
  unfolding after_apply
  after_append entry apply rollback w (err e, l) = done (some (wal_append e)) (record w { wal = l })
  after_append entry apply rollback w (ok seq, l) =
      (on_mem apply >>= after_apply (record entry { seq = seq }) rollback) (record w { wal = l })

  -- `ReplicateAndWait`.
  unfoldable pub replicate_and_wait :
      WalEntry → Go State (Option Error) → Go State (Unit {0}) → Go Pair (Option Error)
  unfolding after_append
  replicate_and_wait entry apply rollback w =
      after_append entry apply rollback w (append codec entry w.wal)

-- The loop that replays a log: in `recoverPrimary`, in `Recover` and in the manager's promotion, which
-- wrap an error in different texts.
unfoldable pub replay : (ℕ → Error → Error) → List WalEntry → Go State (Option Error)
replay wrap [] s = done none s
replay wrap (entry ∷ entries) s =
    let rest = λ (t : State). replay wrap entries t in
    (apply_wal_entry entry >>= λ applied t. elim applied [
      | some e ↦ done (some (wrap entry.seq e)) t
      | none ↦ rest t
    ])
      s

-- `recoverPrimary` behind `ReadAll`.
unfoldable pub after_read : Pair → Result Error (List WalEntry) × Log → Run Pair (Option Error)
unfolding replay
after_read w (err e, l) = done (some e) (record w { wal = l })
after_read w (ok es, l) = on_mem (replay recover_seq es) (record w { wal = l })

module _ (codec : Codec) where
  unfoldable pub recover_primary : Go Pair (Option Error)
  unfolding after_read
  recover_primary w = after_read w (read_all codec w.wal)

  -- `startWithWal` behind the dial: `global` is set, and cleared again where an error is returned.
  unfoldable pub start_synced : Option Error × Pair → Run Pair (Option Error)
  start_synced (none, w) = done none w
  start_synced (some e, w) = done (some (sync_backup e)) w

  unfoldable pub start_recovered : Option Error → Go Pair (Option Error)
  unfolding start_synced
  start_recovered (some e) = pure (some (recover_failed e))
  start_recovered none = λ w. start_synced (sync_backup_wal codec w)

  unfoldable pub start_with_wal : Go Pair (Option Error)
  unfolding start_recovered
  start_with_wal = recover_primary >>= start_recovered
