-- ===== src/Tests/PairRuns.antt =====
-- The theorems on replication, applied to a primary and a backup that hold one entry.
use snowcast.Prelude.{refl, inl, true, [], ◌∷◌, arith}
use snowcast.Protocol.{WalEntry, disconnect}
use snowcast.State.Store.{client_key}
use snowcast.State.Apply.{apply_disconnect, rollback_disconnect}
use snowcast.Replication.Coordinator.{Pair, request_lost, replicate_with_retry, replicate_and_wait}
use snowcast.Replication.Catchup.{Sent}
use snowcast.Replication.Retry.{InSync, replicate_with_retry-Sent}
use snowcast.Replication.Commit.{Committed, replicate_and_wait-Committed}
use snowcast.Tests.Server.{host, joined}
use snowcast.Tests.Journal.{plain, joining, journal, journal-Holds}

abbrev leave : WalEntry
leave = record { seq = 0; op = disconnect (record { client_ip = host; udp_port = 5000 }) }

-- The first call to the backup is lost.
abbrev pub pair : Pair
pair = record {
  mem = joined;
  wal = journal;
  last_wal_seq = 1;
  backup = record { wal = journal; last_wal_seq = 1; accepting = true };
  net = request_lost ∷ [];
}

pair-InSync : InSync plain pair (joining ∷ []) (joining ∷ []) []
pair-InSync = record {
  primary = journal-Holds;
  numbered = (refl, tt);
  split = refl;
  backup = record { wal = journal-Holds; last = refl; accepting = refl; calm = refl };
  room = omega arith;
}

replicate_with_retry-Sent_example :
    Sent plain (joining ∷ []) (joining ∷ []) pair (replicate_with_retry plain joining pair)
replicate_with_retry-Sent_example =
    replicate_with_retry-Sent plain joining [] (joining ∷ []) refl (joining ∷ []) [] pair
      pair-InSync (inl (omega arith))

replicate_and_wait-Committed_example :
    Committed plain leave
      (apply_disconnect (client_key host 5000))
      (rollback_disconnect (client_key host 5000) 1)
      pair
      (joining ∷ [])
      (joining ∷ [])
      (replicate_and_wait plain leave
        (apply_disconnect (client_key host 5000))
        (rollback_disconnect (client_key host 5000) 1)
        pair)
replicate_and_wait-Committed_example =
    replicate_and_wait-Committed plain leave (apply_disconnect (client_key host 5000))
      (rollback_disconnect (client_key host 5000) 1) pair (joining ∷ []) (joining ∷ []) []
      pair-InSync (inl (omega arith)) (omega arith)
