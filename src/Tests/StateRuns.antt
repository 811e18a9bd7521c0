-- ===== src/Tests/StateRuns.antt =====
-- The theorems on the state, applied to a server with one client.
use snowcast.Prelude.{◌≡◌, refl, pos, minus_one}
use snowcast.Run.{Ends, and_then}
use snowcast.Protocol.{set_station}
use snowcast.State.Apply.{
  apply_set_station, rollback_set_station, apply_disconnect, rollback_disconnect, apply_wal_op,
}
use snowcast.State.Invariant.{IsConsistent}
use snowcast.State.Rollback.{SameSessions, rollback_apply_set_station}
use snowcast.State.Roster.{roster, Refines, apply_wal_op-Refines}
use snowcast.State.Allocate.{allocate}
use snowcast.State.Reconnect.{saved_client, rollback_apply_disconnect}
use snowcast.Tests.Server.{key, known, host, joined, joined-IsConsistent}

apply_wal_op-Refines_example :
    Ends
      (Refines
        (set_station (record {
          client_ip = host;
          udp_port = 5000;
          station_number = pos 1;
          previous_station = minus_one;
        }))
        joined)
      (apply_wal_op
        (set_station (record {
          client_ip = host;
          udp_port = 5000;
          station_number = pos 1;
          previous_station = minus_one;
        }))
        joined)
apply_wal_op-Refines_example =
    apply_wal_op-Refines
      (set_station (record {
        client_ip = host;
        udp_port = 5000;
        station_number = pos 1;
        previous_station = minus_one;
      }))
      joined joined-IsConsistent refl

rollback_apply_set_station_example :
    Ends
      (λ _ t. SameSessions joined t)
      (and_then
        (apply_set_station key (pos 1) joined)
        (λ _. rollback_set_station key ((joined.heap 0).curr_station)))
rollback_apply_set_station_example =
    rollback_apply_set_station key joined-IsConsistent known (pos 1) refl

rollback_apply_disconnect_example :
    Ends
      (λ _ t. IsConsistent t × (roster t ≡ roster joined))
      (and_then
        (apply_disconnect key (allocate (saved_client (joined.heap 0)) joined))
        (λ _. rollback_disconnect key (joined.next)))
rollback_apply_disconnect_example = rollback_apply_disconnect key 0 joined joined-IsConsistent known
