-- ===== src/Tests/BenchRuns.antt =====
-- The theorems on the measuring command, applied to two handshakes, two workers and a dispatched request.
use snowcast.Prelude.{
  none, true, false, List, codes, ℕ, ◌+◌, ◌<◌, ◌≡◌, refl, pos, some, [], ◌∷◌, arith,
}
use snowcast.Run.{Ends}
use snowcast.Wal.File.{Bytes, short}
use snowcast.Wal.Append.{numbered}
use snowcast.Replication.Settles.{coordinator, coordinator-IsReplicator}
use snowcast.State.Store.{lookup}
use snowcast.State.Roster.{roster}
use snowcast.Bench.Replay.{replay_entry, isolated_replay}
use snowcast.Bench.Replayed.{IsReplayed, isolated_replay-IsReplayed}
use snowcast.Bench.Warmup.{WarmedUp, warm_up, warm_up-WarmedUp}
use snowcast.Bench.Dispatch.{
  IsLoaded, calling, Reached, at_start, and_then_step, dispatch, request, Reached-IsLoaded,
  start_load, Load,
}
use snowcast.Bench.Phases.{report, parse_bench_phases, strip, from_marker}
use snowcast.Bench.Marked.{
  LogLine, marked, other, written, last_mark, reported, parse_bench_phases-mark,
}
use snowcast.Tests.Server.{joined, joined-IsConsistent}
use snowcast.Tests.Journal.{plain}
use snowcast.Tests.PairRuns.{pair}

two_codes :
    (i : ℕ) → i < 2 → (b : Bytes) × (plain.marshal (numbered (i + 1) (replay_entry i)) ≡ some b)
two_codes i h = (_, refl)

isolated_replay-IsReplayed_example :
    Ends (IsReplayed 2) (isolated_replay plain [] [] (short 0 ∷ []) (pos 2) joined)
isolated_replay-IsReplayed_example =
    isolated_replay-IsReplayed plain 2 (omega arith) two_codes (short 0 ∷ []) joined

warm_up-WarmedUp_example :
    Ends
      (WarmedUp (coordinator plain) 2 (pos 5000) 0 2 (roster pair.mem))
      (warm_up (coordinator plain) 2 (pos 5000) 0 2 pair)
warm_up-WarmedUp_example =
    warm_up-WarmedUp (coordinator plain) 2 (pos 5000) (coordinator-IsReplicator plain) 0 2 pair
      joined-IsConsistent

abbrev asked : Load
asked = record (start_load 2) {
  free = 1 ∷ [];
  busy = (0, calling 1) ∷ [];
  op_seq = 1;
  progress = record { requested = 1 ∷ []; latencies = []; completed = 0 };
}

asked-Reached : Reached 7 2 asked
asked-Reached =
    and_then_step (and_then_step at_start (dispatch 0 (1 ∷ []) refl)) (request 0 [] [] refl)

Reached-IsLoaded_example : IsLoaded 7 2 asked
Reached-IsLoaded_example = Reached-IsLoaded 7 2 (omega arith) asked-Reached

-- The log of a node that was promoted twice.
abbrev promotions : List LogLine
promotions =
    marked true (codes "00:00:01 ") (codes "failover_wal_replay") 12
    ∷ other (codes "00:00:01 BENCH of none")
    ∷ marked true (codes "00:00:09 ") (codes "failover_wal_replay") 7
    ∷ marked false (codes "00:00:09 ") (codes "failover_promote_total") 30
    ∷ []

no_marker : from_marker (codes "00:00:01 BENCH of none") ≡ none
unfolding from_marker strip
no_marker = refl

parse_bench_phases-mark_example :
    (lookup (codes "failover_wal_replay") (parse_bench_phases (written promotions))
      ≡ last_mark promotions (codes "failover_wal_replay"))
    × (report (λ k. lookup k (parse_bench_phases (written promotions)))
        ≡ reported (last_mark promotions))
parse_bench_phases-mark_example =
    parse_bench_phases-mark promotions (codes "failover_wal_replay")
      ((refl, refl), (no_marker, ((refl, refl), ((refl, refl), refl))))
