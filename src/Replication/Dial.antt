-- ===== src/Replication/Dial.antt =====
-- internal/replication/coordinator.go around `startWithWal`: the dial with its time limit, `Start`, and
-- the shutdown.
use snowcast.Prelude.{Option, none, some, List, [], ◌∷◌}
use snowcast.Run.{Go, pure, Result, ok, err}
use snowcast.Protocol.{Error, backup_not_ready, open_wal}
use snowcast.Wal.File.{Bytes, Outcome}
use snowcast.Wal.Log.{Codec, Log, open_log, close}
use snowcast.Replication.Coordinator.{Pair, start_with_wal}

-- One round of the loop of `dialBackup`: no client object, a ping that fails, or one that is answered.
pub data Attempt : Type 0 where
  no_client : Attempt
  ping_failed : Attempt
  ping_answered : Attempt

-- The rounds are those before the deadline; `none` is a connection.
unfoldable pub dial_backup : List Attempt → Option Error
dial_backup [] = some backup_not_ready
dial_backup (ping_answered ∷ attempts) = none
dial_backup (no_client ∷ attempts) = dial_backup attempts
dial_backup (ping_failed ∷ attempts) = dial_backup attempts

unfoldable pub shutdown : Pair → Pair
shutdown w = record w { wal = close w.wal }

module _ (codec : Codec) where
  unfoldable pub after_dial : Option Error → Go Pair (Option Error)
  after_dial (some e) = pure (some e)
  after_dial none = start_with_wal codec

  -- `StartWithWal` and `StartWithWalTimeout`, which differ in the time limit.
  unfoldable pub start_with_wal_timeout : List Attempt → Go Pair (Option Error)
  unfolding after_dial
  start_with_wal_timeout attempts = after_dial (dial_backup attempts)

  unfoldable pub after_open : List Attempt → Result Error Log → Go Pair (Option Error)
  after_open attempts (err e) = pure (some (open_wal e))
  after_open attempts (ok l) = λ w. start_with_wal_timeout attempts (record w { wal = l })

  -- `Start` on a path whose file has this content.
  unfoldable pub start : Bytes → List Outcome → List Attempt → Go Pair (Option Error)
  unfolding after_open
  start content outcomes attempts = after_open attempts (open_log codec content outcomes)
