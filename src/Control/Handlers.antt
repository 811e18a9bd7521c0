-- ===== src/Control/Handlers.antt =====
-- The handlers of internal/control/grpc.go over any `Replicator`. A handler is one step: no other
-- request runs between its checks and the end of `ReplicateAndWait`.
use snowcast.Prelude.{
  ℕ, ◌%◌, ◌^◌, Text, codes, ℤ, pos, to_int32, Bool, true, false, Option, none, some, List, [], ◌∷◌,
  ltb, not, length, if◌then◌else◌,
}
use snowcast.Run.{done, Go, pure, ◌>>=◌, Result, ok, err}
use snowcast.Protocol.{
  WalEntry, WalOp, handshake, set_station, disconnect, ServerEvent, announce, invalid, Error,
  client_already_connected, client_not_found, invalid_station_number, stream_closed,
}
use snowcast.State.Store.{State, client_key}
use snowcast.State.Apply.{
  apply_handshake, rollback_handshake, apply_set_station, rollback_set_station, apply_disconnect,
  rollback_disconnect, get_client,
}
use snowcast.State.Allocate.{allocate}
use snowcast.State.Reconnect.{saved_client}
use snowcast.Control.Replicator.{Replicator}

-- `getClientIP`
abbrev pub client_ip : Text
client_ip = codes "127.0.0.1"

abbrev pub key_of : ℕ → Text
key_of udp_port = client_key client_ip udp_port

-- The number is assigned by the log.
abbrev pub entry_of : WalOp → WalEntry
entry_of op = record { seq = 0; op = op }

abbrev pub handshake_op : ℕ → WalOp
handshake_op udp_port = handshake (record { client_ip = client_ip; udp_port = udp_port })

abbrev pub set_station_op : ℕ → ℕ → ℤ → WalOp
set_station_op udp_port station_num previous = set_station (record {
  client_ip = client_ip;
  udp_port = udp_port;
  station_number = to_int32 (pos station_num);
  previous_station = to_int32 previous;
})

abbrev pub disconnect_op : ℕ → WalOp
disconnect_op udp_port = disconnect (record { client_ip = client_ip; udp_port = udp_port })

-- The closures that the handlers pass on.
abbrev pub error_of : {A : Type 0} → Go State (A × Option Error) → Go State (Option Error)
error_of m = m >>= λ r. pure (r.1)

abbrev pub answer : {A : Type 0} → A → Option Error → Result Error A
answer a none = ok a
answer a (some e) = err e

-- What `SetStation` has sent to its stream, and whether it goes on to forward events.
pub record StationReply : Type 0 where
  pub sent : List ServerEvent
  pub status : Option Error

-- The station's name that the closure of `SetStation` keeps: the one that `ApplySetStation` gives on the
-- state that `ReplicateAndWait` was called in. It is read only where no error came back, and then, by
-- the law of a replicator, the closure ran on that state.
abbrev pub song_name : ℕ → ℕ → State → Text
song_name udp_port station_num s = elim (apply_set_station (key_of udp_port) (pos station_num) s) [
  | done r t ↦ r.0
  | _ ↦ []
]

-- The first `Send` after the change; `works` is its outcome.
abbrev pub announced : Bool → Text → Option Error → StationReply
announced works name (some e) = record { sent = []; status = some e }
announced true name none = record { sent = announce name ∷ []; status = none }
announced false name none = record { sent = []; status = some stream_closed }

module _ {S : Type 0} (repl : Replicator S) where
  open repl use {mem, with_mem, replicate_and_wait}

  -- `num_stations` is the field of the server.
  unfoldable pub handshake_free : (num_stations udp_port : ℕ) → Go S (Result Error ℕ)
  handshake_free num_stations udp_port = do
    e ←
        replicate_and_wait (entry_of (handshake_op udp_port))
          (error_of (apply_handshake client_ip udp_port)) (rollback_handshake client_ip udp_port)
    pure (answer (num_stations % 2 ^ 32) e)

  unfoldable pub handle_handshake : (num_stations udp_port : ℕ) → Go S (Result Error ℕ)
  unfolding handshake_free
  handle_handshake num_stations udp_port w = elim (get_client (key_of udp_port) (mem w)) [
    | some client ↦ done (err (client_already_connected (key_of udp_port))) w
    | none ↦ handshake_free num_stations udp_port w
  ]

  unfoldable pub set_station_at_client :
      Bool → (station_num udp_port client : ℕ) → Go S StationReply
  set_station_at_client works station_num udp_port client w =
      let previous = ((mem w).heap client).curr_station in
      let name = song_name udp_port station_num (mem w) in
      (do
        e ←
            replicate_and_wait (entry_of (set_station_op udp_port station_num previous))
              (error_of (apply_set_station (key_of udp_port) (pos station_num)))
              (rollback_set_station (key_of udp_port) previous)
        pure (announced works name e))
        w

  -- `SetStation` up to its loop. The error of the `Send` of an invalid command is dropped.
  unfoldable pub handle_set_station : Bool → (station_num udp_port : ℕ) → Go S StationReply
  unfolding set_station_at_client
  handle_set_station works station_num udp_port w =
      if not (ltb station_num (length (mem w).station_list))
      then done
          (record {
            sent = if works then invalid (codes "Invalid Station Number") ∷ [] else [];
            status = some (invalid_station_number (pos station_num));
          })
          w
      else elim (get_client (key_of udp_port) (mem w)) [
        | none ↦ done (record { sent = []; status = some (client_not_found (key_of udp_port)) }) w
        | some client ↦ set_station_at_client works station_num udp_port client w
      ]

  unfoldable pub disconnect_client : (udp_port client : ℕ) → Go S (Bool × Option Error)
  disconnect_client udp_port client w =
      let saved = (mem w).next in
      (do
        e ←
            replicate_and_wait (entry_of (disconnect_op udp_port))
              (apply_disconnect (key_of udp_port)) (rollback_disconnect (key_of udp_port) saved)
        pure (elim e [ some x ↦ (false, some x) | none ↦ (true, none) ]))
        (with_mem (allocate (saved_client ((mem w).heap client)) (mem w)) w)

  -- `Disconnect`: the field `Success` and the error.
  unfoldable pub handle_disconnect : (udp_port : ℕ) → Go S (Bool × Option Error)
  unfolding disconnect_client
  handle_disconnect udp_port w = elim (get_client (key_of udp_port) (mem w)) [
    | none ↦ done (false, none) w
    | some client ↦ disconnect_client udp_port client w
  ]
