-- ===== src/Tests/ControlRuns.antt =====
-- The handlers over the coordinator of a primary and a backup, at concrete requests.
use snowcast.Prelude.{◌≡◌, refl, true, false, text_eq, decimal}
use snowcast.Run.{Ends}
use snowcast.Replication.Settles.{coordinator, coordinator-IsReplicator}
use snowcast.State.Store.{client_key}
use snowcast.Failover.Requests.{leave, perform_on}
use snowcast.Failover.Overtaken.{
  port_of, overtaken_handshake, handshake_behind, overtaken_handshake-sequential,
}
use snowcast.Control.Handlers.{key_of, handle_handshake, handle_set_station, handle_disconnect}
use snowcast.Control.Handshake.{HandshakeDone, handle_handshake-Done}
use snowcast.Control.Leave.{DisconnectDone, handle_disconnect-Done}
use snowcast.Control.Tune.{SetStationDone, handle_set_station-Done}
use snowcast.Tests.Server.{joined-IsConsistent}
use snowcast.Tests.Journal.{plain}
use snowcast.Tests.PairRuns.{pair}

handle_handshake-Done_example :
    Ends
      (HandshakeDone (coordinator plain) 2 5001 pair)
      (handle_handshake (coordinator plain) 2 5001 pair)
handle_handshake-Done_example =
    handle_handshake-Done (coordinator plain) (coordinator-IsReplicator plain) 2 5001 pair
      joined-IsConsistent

elsewhere : text_eq (key_of (port_of (leave 5000))) (key_of 5001) ≡ false
unfolding text_eq client_key decimal
elsewhere = refl

overtaken_handshake-sequential_example :
    overtaken_handshake
      (coordinator plain)
      (perform_on (coordinator plain) (leave 5000))
      2
      5001
      pair
    ≡ handshake_behind (coordinator plain) (perform_on (coordinator plain) (leave 5000)) 2 5001 pair
overtaken_handshake-sequential_example =
    overtaken_handshake-sequential (coordinator plain) (coordinator-IsReplicator plain) (leave 5000)
      2 5001 pair joined-IsConsistent elsewhere

handle_set_station-Done_example :
    Ends
      (SetStationDone (coordinator plain) true 1 5000 pair)
      (handle_set_station (coordinator plain) true 1 5000 pair)
handle_set_station-Done_example =
    handle_set_station-Done (coordinator plain) (coordinator-IsReplicator plain) true 1 5000 pair
      joined-IsConsistent

handle_disconnect-Done_example :
    Ends
      (DisconnectDone (coordinator plain) 5000 pair)
      (handle_disconnect (coordinator plain) 5000 pair)
handle_disconnect-Done_example =
    handle_disconnect-Done (coordinator plain) (coordinator-IsReplicator plain) 5000 pair
      joined-IsConsistent
