-- ===== src/State/Apply.antt =====
-- The operations of internal/state/state.go, each as one atomic step: what happens between the
-- sections that hold `ClientMutex` or a station's mutex is not interleaved with other operations.
use snowcast.Prelude.{
  ℕ, ◌+◌, Text, ℤ, minus_one, int_eq, true, Option, none, some, [], ◌∷◌, ◌++◌, length,
  if◌then◌else◌,
}
use snowcast.Run.{done, panic, Go, pure, gets, modify, ◌>>=◌, ◌>>◌}
use snowcast.Protocol.{
  WalEntry, WalOp, handshake, set_station, disconnect, unset, Error, client_already_connected,
  client_not_found, unknown_wal_op,
}
use snowcast.State.Store.{
  State, lookup, delete, put, update, client_key, fresh_chan, station_at, write_clients,
  set_curr_station, swap_remove, in_range,
}

unfoldable pub remove_from_current_station : ℕ → Go State (Unit {0})
unfolding swap_remove
remove_from_current_station p s =
    let curr = (s.heap p).curr_station in
    if int_eq curr minus_one then done tt s else elim (station_at s.station_list curr) [
      | none ↦ panic s
      | some st ↦ done tt (write_clients curr st (swap_remove p st.clients) s)
    ]

-- `station.Clients = append(station.Clients, client)`, with the station's name.
unfoldable pub append_client : ℤ → ℕ → Go State Text
append_client z p s = elim (station_at s.station_list z) [
  | none ↦ panic s
  | some st ↦ done st.name (write_clients z st (st.clients ++ p ∷ []) s)
]

unfoldable pub apply_handshake : Text → ℕ → Go State (Text × Option Error)
apply_handshake ip udp_port s =
    let key = client_key ip udp_port in
    elim (lookup key s.current_clients) [
      | some p ↦ done (key, some (client_already_connected key)) s
      | none ↦
          done (key, none)
            (record s {
              heap = update s.heap s.next (record {
                udp_addr = record { ip = ip; port = udp_port };
                curr_station = minus_one;
                event_chan = fresh_chan;
              });
              next = s.next + 1;
              current_clients = put key s.next s.current_clients;
            })
    ]

unfoldable pub rollback_handshake : Text → ℕ → Go State (Unit {0})
rollback_handshake ip udp_port =
    modify (λ s. record s { current_clients = delete (client_key ip udp_port) s.current_clients })

unfoldable pub apply_set_station : Text → ℤ → Go State (Text × Option Error)
unfolding remove_from_current_station append_client
apply_set_station key station_num s = elim (lookup key s.current_clients) [
  | none ↦ done ([], some (client_not_found key)) s
  | some client ↦
      (do
        remove_from_current_station client
        modify (set_curr_station client station_num)
        name ← append_client station_num client
        pure (name, none))
        s
]

-- Appends where the station exists, and does nothing elsewhere.
unfoldable pub append_in_range : ℤ → ℕ → Go State (Unit {0})
unfolding append_client
append_in_range z p s =
    if in_range z s.station_list then (append_client z p >> pure tt) s else done tt s

unfoldable pub rollback_set_station : Text → ℤ → Go State (Unit {0})
unfolding remove_from_current_station append_in_range
rollback_set_station key previous s = elim (lookup key s.current_clients) [
  | none ↦ done tt s
  | some client ↦
      (do
        remove_from_current_station client
        append_in_range previous client
        modify (set_curr_station client previous))
        s
]

-- `close(ch)` panics on a closed channel.
unfoldable pub close_chan : ℕ → Go State (Unit {0})
close_chan p s =
    let c = s.heap p in
    if c.event_chan.closed
    then panic s
    else done tt (record s {
      heap = update s.heap p (record c { event_chan = record (c.event_chan) { closed = true } });
    })

unfoldable pub apply_disconnect : Text → Go State (Option Error)
unfolding remove_from_current_station close_chan
apply_disconnect key s = elim (lookup key s.current_clients) [
  | none ↦ done (some (client_not_found key)) s
  | some client ↦
      (do
        modify (λ t. record t { current_clients = delete key t.current_clients })
        remove_from_current_station client
        close_chan client
        pure none)
        s
]

-- `client` is the address of the saved copy.
unfoldable pub rollback_disconnect : Text → ℕ → Go State (Unit {0})
unfolding append_in_range
rollback_disconnect key client = do
  modify (λ t. record t { current_clients = put key client t.current_clients })
  curr ← gets (λ t. (t.heap client).curr_station)
  append_in_range curr client

unfoldable pub apply_wal_op : WalOp → Go State (Option Error)
unfolding apply_handshake apply_set_station apply_disconnect
apply_wal_op (handshake op) = do (key, err) ← apply_handshake op.client_ip op.udp_port; pure err
apply_wal_op (set_station op) = do
  (name, err) ← apply_set_station (client_key op.client_ip op.udp_port) op.station_number
  pure err
apply_wal_op (disconnect op) = apply_disconnect (client_key op.client_ip op.udp_port)
apply_wal_op unset = pure (some unknown_wal_op)

unfoldable pub apply_wal_entry : WalEntry → Go State (Option Error)
unfolding apply_wal_op
apply_wal_entry entry = apply_wal_op entry.op

-- `GetClient`: the pointer, if the key is registered.
unfoldable pub get_client : Text → State → Option ℕ
get_client key s = lookup key s.current_clients

unfoldable pub num_stations : State → ℕ
num_stations s = length s.station_list
