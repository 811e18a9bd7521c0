-- ===== src/Failover/Tracked.antt =====
-- A primary whose backup has its whole log and no failing write or sync ahead, and whose memory is what the log comes to.
use snowcast.Prelude.{inr, refl, Option, none, some, List, []}
use snowcast.Run.{Run, done, panic, Go}
use snowcast.Protocol.{WalEntry, WalOp, Error}
use snowcast.State.Store.{State}
use snowcast.Wal.Log.{Codec}
use snowcast.Control.Handlers.{entry_of}
use snowcast.Replication.Coordinator.{Pair}
use snowcast.Replication.Retry.{InSync}
use snowcast.Replication.Commit.{Committed, replicate_and_wait-Committed}
use snowcast.Replication.Settles.{coordinator}
use snowcast.Failover.Kept.{IsKept, IsLogging, Logged}

module _ (codec : Codec) where
  -- The backup lacks no entry.
  abbrev pub InStepLog : List WalEntry → Pair → Type 0
  InStepLog es w = InSync codec w es es []

  abbrev pub IsTracked : List WalEntry → Pair → Type 0
  IsTracked = IsKept (coordinator codec) InStepLog

  committed :
      (op : WalOp) (apply : Go State (Option Error)) (rollback : Go State (Unit {0}))
      (es : List WalEntry) (w : Pair) (q : Run Pair (Option Error))
      → Committed codec (entry_of op) apply rollback w es es q
      → Logged (coordinator codec) InStepLog op apply es w q
  committed op apply rollback es w (done none w') c = c
  committed op apply rollback es w (done (some x) w') c = tt
  committed op apply rollback es w (panic w') c = tt

  InSync-memory :
      (s : State) (es : List WalEntry) (w : Pair)
      → InStepLog es w
      → InStepLog es (record w { mem = s })
  InSync-memory s es w i = record {
    primary = i.primary;
    numbered = i.numbered;
    split = i.split;
    backup = i.backup;
    room = i.room;
  }

  pub coordinator-IsLogging : IsLogging (coordinator codec) InStepLog
  coordinator-IsLogging = record {
    mem-with_mem = λ s w. refl;
    log-with_mem = InSync-memory;
    logged = λ op apply rollback es w i room. committed op apply rollback es w _ (
        replicate_and_wait-Committed codec (entry_of op) apply rollback w es es [] i (inr refl)
          room);
  }
