-- ===== src/Tests/RecoveryRuns.antt =====
-- Replays of a log of two entries.
use snowcast.Prelude.{[], ◌∷◌}
use snowcast.Run.{Ends}
use snowcast.Protocol.{recover_seq}
use snowcast.State.Invariant.{IsConsistent}
use snowcast.State.Roster.{roster}
use snowcast.Replication.Coordinator.{replay}
use snowcast.Replication.Recovery.{spec_replay, Replayed, replay-Replayed}
use snowcast.Tests.Server.{booted, booted-IsConsistent}
use snowcast.Tests.Journal.{joining}
use snowcast.Tests.LogRuns.{leaving}

replay-Replayed_example :
    Ends
      (λ err t.
        IsConsistent t × Replayed (spec_replay (joining ∷ leaving ∷ []) (roster booted)) err t)
      (replay recover_seq (joining ∷ leaving ∷ []) booted)
replay-Replayed_example =
    replay-Replayed recover_seq (joining ∷ leaving ∷ []) booted booted-IsConsistent (tt, (tt, tt))
