-- ===== src/Tests/RuntimeRuns.antt =====
-- A tick of a station that one client listens to, and the replicators of the two coordinators.
use mathlib.Core.Path.{subst}
use snowcast.Prelude.{◌≡◌, ◌∙◌, refl, sym, codes, pos, none, [], ◌∷◌}
use snowcast.Run.{done, Ends, Ends-done, done-state}
use snowcast.State.Store.{State, Station, put, write_clients, set_curr_station}
use snowcast.State.Apply.{apply_set_station}
use snowcast.State.Moves.{apply_set_station-IsConsistent}
use snowcast.State.Invariant.{IsConsistent}
use snowcast.Control.Replicator.{IsReplicator}
use snowcast.Replication.Settles.{coordinator, coordinator-IsReplicator}
use snowcast.Replication.SettlesLocal.{local, local-IsReplicator}
use snowcast.Runtime.Stream.{at_eof, stream_tick}
use snowcast.Runtime.Streamed.{Streamed, stream_tick-Streamed}
use snowcast.Tests.Server.{key, known, joined, joined-IsConsistent}
use snowcast.Tests.Journal.{plain}

abbrev pub station_a : Station
station_a = record { clients = 0 ∷ []; name = codes "a.mp3" }

abbrev pub tuned : State
tuned =
    write_clients (pos 0) (record { clients = []; name = codes "a.mp3" }) (0 ∷ [])
      (set_curr_station 0 (pos 0) joined)

tunes : apply_set_station key (pos 0) joined ≡ done (codes "a.mp3", none) tuned
unfolding apply_set_station put
tunes = rw (known, apply_set_station) refl

pub tuned-IsConsistent : IsConsistent tuned
tuned-IsConsistent =
    let (r, t, ran, kept) =
      Ends-done (apply_set_station-IsConsistent key joined-IsConsistent known (pos 0) refl) in
    subst IsConsistent (done-state (sym ran ∙ tunes)) (kept.1)

stream_tick-Streamed_example :
    Ends
      (λ packets t. Streamed (codes "a.mp3") (1 ∷ 2 ∷ []) at_eof (0 ∷ []) tuned packets t)
      (stream_tick 0 (codes "a.mp3") (1 ∷ 2 ∷ []) at_eof tuned)
stream_tick-Streamed_example =
    stream_tick-Streamed 0 (codes "a.mp3") (1 ∷ 2 ∷ []) at_eof station_a tuned tuned-IsConsistent
      refl

coordinator-IsReplicator_example : IsReplicator (coordinator plain)
coordinator-IsReplicator_example = coordinator-IsReplicator plain

local-IsReplicator_example : IsReplicator (local plain)
local-IsReplicator_example = local-IsReplicator plain
