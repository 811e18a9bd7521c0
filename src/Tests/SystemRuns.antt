-- ===== src/Tests/SystemRuns.antt =====
-- A client joins, tunes in, and the standby takes over; another client is turned down.
use snowcast.Prelude.{
  ◌+◌, ◌<◌, ◌^◌, ◌≡◌, refl, inl, true, none, List, [], ◌∷◌, text_eq_refl, arith, text_eq, decimal,
  to_int32,
}
use snowcast.Run.{done, final}
use snowcast.Replication.Coordinator.{Pair}
use snowcast.Replication.Settles.{coordinator}
use snowcast.Node.Manager.{Node, promote_to_leader}
use snowcast.Failover.Requests.{join, tune, perform_on}
use snowcast.Control.Handlers.{handle_handshake, handshake_free, handle_set_station}
use snowcast.State.Apply.{get_client, apply_handshake, apply_set_station, apply_wal_entry}
use snowcast.State.Store.{lookup, delete, put, client_key, init_stations}
use snowcast.Wal.File.{write, sync, read_full, seek_start, put_uint32, uint32}
use snowcast.Wal.Log.{append, write_record, append_replicated, read_all}
use snowcast.Replication.Server.{replicate}
use snowcast.Replication.Coordinator.{
  replicate_and_wait, after_append, after_apply, acknowledge, replicate_with_retry, retry_failed,
  send, replicate_by, replay,
}
use snowcast.System.Steps.{
  paired, single, follows, served, failover, Label, Reach, here, next, called, takes_over,
}
use snowcast.System.Sound.{IsSound}
use snowcast.System.Refined.{Reach-Refines, Refines}
use snowcast.Tests.Journal.{plain}
use snowcast.Tests.NodeRuns.{alone, reached, lease_1}
use snowcast.Tests.FailoverRuns.{fresh, fresh-IsTracked}

abbrev awake : Node
awake = record alone { pair = record (alone.pair) { wal = fresh.backup.wal } }

abbrev after_join : Pair
after_join = final (perform_on (coordinator plain) (join 2 5000) fresh)

abbrev after_tune : Pair
after_tune = final (perform_on (coordinator plain) (tune true 1 5000) after_join)

abbrev followed : Node
followed = follows after_tune.backup (follows after_join.backup awake)

abbrev promoted : Node
promoted = final (promote_to_leader plain reached lease_1 followed)

abbrev labels : List Label
labels = served (join 2 5000) ∷ served (tune true 1 5000) ∷ failover ∷ []

fresh-IsSound : IsSound plain 2 (paired fresh awake)
fresh-IsSound = (
  [],
  record {
    tracked = fresh-IsTracked;
    stations = refl;
    role = refl;
    log = refl;
    nobody = refl;
    files = refl;
  },
)

took_over : promote_to_leader plain reached lease_1 followed ≡ done none promoted
unfolding handle_handshake handshake_free get_client lookup delete put replicate_and_wait
    after_append after_apply acknowledge replicate_with_retry retry_failed send replicate_by
    apply_handshake append write_record write sync replicate append_replicated handle_set_station
    text_eq client_key decimal to_int32 apply_set_station promote_to_leader read_all read_full
    seek_start put_uint32 uint32 replay apply_wal_entry init_stations
took_over = refl

joined_ran : perform_on (coordinator plain) (join 2 5000) fresh ≡ done true after_join
unfolding handle_handshake handshake_free get_client lookup delete put replicate_and_wait
    after_append after_apply acknowledge replicate_with_retry retry_failed send replicate_by
    apply_handshake append write_record write sync replicate append_replicated handle_set_station
    text_eq client_key decimal to_int32 apply_set_station
joined_ran = refl

tuned_ran : perform_on (coordinator plain) (tune true 1 5000) after_join ≡ done true after_tune
unfolding handle_handshake handshake_free get_client lookup delete put replicate_and_wait
    after_append after_apply acknowledge replicate_with_retry retry_failed send replicate_by
    apply_handshake append write_record write sync replicate append_replicated handle_set_station
    text_eq client_key decimal to_int32 apply_set_station
tuned_ran = refl

room_left : after_join.wal.seq + 1 < 2 ^ 64
unfolding handle_handshake handshake_free get_client lookup delete put replicate_and_wait
    after_append after_apply acknowledge replicate_with_retry retry_failed send replicate_by
    apply_handshake append write_record write sync replicate append_replicated handle_set_station
    text_eq client_key decimal to_int32 apply_set_station
room_left = omega arith

run : Reach plain (paired fresh awake) labels (single promoted)
run = next (called (join 2 5000) (omega arith) joined_ran) (
    next (called (tune true 1 5000) room_left tuned_ran)
      (next (takes_over reached lease_1 (inl (text_eq_refl [])) took_over) here))

Reach-Refines_example : Refines plain 2 (omega arith) labels (paired fresh awake) (single promoted)
Reach-Refines_example = Reach-Refines plain 2 (omega arith) fresh-IsSound run
