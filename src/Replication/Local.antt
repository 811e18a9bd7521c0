-- ===== src/Replication/Local.antt =====
-- internal/replication/local.go: a promoted server that has no backup.
use snowcast.Prelude.{ℕ, List, Option, none, some}
use snowcast.Run.{Run, done, panic, Go, pure, ◌>>=◌, ◌>>◌, Result, ok, err}
use snowcast.Protocol.{recover_seq, WalEntry, Error, wal_append}
use snowcast.State.Store.{State}
use snowcast.Wal.Log.{Codec, Log, append, read_all, open_log, close}
use snowcast.Wal.File.{Bytes, Outcome}
use snowcast.Replication.Coordinator.{replay}

pub record Local : Type 0 where
  pub mem : State
  pub wal : Log

abbrev pub lift_mem : {A : Type 0} → Local → Run State A → Run Local A
lift_mem w (done a s) = done a (record w { mem = s })
lift_mem w (panic s) = panic (record w { mem = s })

abbrev pub on_mem : {A : Type 0} → Go State A → Go Local A
on_mem m w = lift_mem w (m w.mem)

-- `NewLocalFromLog`
abbrev pub new_local_from_log : Log → State → Local
new_local_from_log l s = record { mem = s; wal = l }

abbrev pub after_open : State → Result Error Log → Result Error Local
after_open s (err e) = err e
after_open s (ok l) = ok (new_local_from_log l s)

-- `Close`
unfoldable pub close_local : Local → Local
close_local w = record w { wal = close w.wal }

-- `Recover` behind `ReadAll`.
unfoldable pub after_read : Local → Result Error (List WalEntry) × Log → Run Local (Option Error)
unfolding replay
after_read w (err e, l) = done (some e) (record w { wal = l })
after_read w (ok es, l) = on_mem (replay recover_seq es) (record w { wal = l })

-- `ReplicateAndWait` behind `apply`, and behind `Append`.
unfoldable pub after_apply : Go State (Unit {0}) → Option Error → Go Local (Option Error)
after_apply rollback none = pure none
after_apply rollback (some e) = on_mem rollback >> pure (some e)

unfoldable pub after_append :
    Go State (Option Error)
    → Go State (Unit {0})
    → Local
    → Result Error ℕ × Log
    → Run Local (Option Error)
unfolding after_apply
after_append apply rollback w (err e, l) = done (some (wal_append e)) (record w { wal = l })
after_append apply rollback w (ok seq, l) =
    (on_mem apply >>= after_apply rollback) (record w { wal = l })

module _ (codec : Codec) where
  -- `StartLocal` on a path whose file has this content.
  abbrev pub start_local : Bytes → List Outcome → State → Result Error Local
  start_local content outcomes s = after_open s (open_log codec content outcomes)

  unfoldable pub recover : Go Local (Option Error)
  unfolding after_read
  recover w = after_read w (read_all codec w.wal)

  unfoldable pub replicate_and_wait :
      WalEntry → Go State (Option Error) → Go State (Unit {0}) → Go Local (Option Error)
  unfolding after_append
  replicate_and_wait entry apply rollback w =
      after_append apply rollback w (append codec entry w.wal)
