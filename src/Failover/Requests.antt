-- ===== src/Failover/Requests.antt =====
-- A run of requests to the primary, each answered before the next one.
use snowcast.Prelude.{
  ℕ, Bool, true, false, pos, minus_one, Option, none, some, is_some, List, [], ◌∷◌, ltb,
  if◌then◌else◌, ◌&&◌,
}
use snowcast.Run.{Go, pure, ◌>>=◌, Result, ok, err}
use snowcast.Protocol.{Error}
use snowcast.State.Roster.{Roster, assign}
use snowcast.Wal.Log.{Codec}
use snowcast.Control.Handlers.{
  StationReply, key_of, handle_handshake, handle_set_station, handle_disconnect,
}
use snowcast.Control.Replicator.{Replicator}
use snowcast.Replication.Coordinator.{Pair}
use snowcast.Replication.Settles.{coordinator}

pub data Call : Type 0 where
  join : (num_stations udp_port : ℕ) → Call
  tune : (stream_works : Bool) → (station_num udp_port : ℕ) → Call
  leave : (udp_port : ℕ) → Call

-- Whether the client was told that its request succeeded.
abbrev pub welcomed : Result Error ℕ → Bool
welcomed (ok n) = true
welcomed (err e) = false

abbrev pub tuned_in : StationReply → Bool
tuned_in r = elim r.status [ none ↦ true | some e ↦ false ]

-- What a request means for the clients of a server with `k` stations; `none` where it has no success.
unfoldable pub spec_call : ℕ → Call → Roster → Option Roster
spec_call k (join num_stations udp_port) r =
    if is_some (r (key_of udp_port))
    then none
    else some (assign r (key_of udp_port) (some minus_one))
spec_call k (tune works station_num udp_port) r =
    if ltb station_num k && is_some (r (key_of udp_port))
    then some (assign r (key_of udp_port) (some (pos station_num)))
    else none
spec_call k (leave udp_port) r =
    if is_some (r (key_of udp_port)) then some (assign r (key_of udp_port) none) else none

module _ {S : Type 0} (repl : Replicator S) where
  abbrev pub perform_on : Call → Go S Bool
  perform_on (join num_stations udp_port) =
      handle_handshake repl num_stations udp_port >>= λ r. pure (welcomed r)
  perform_on (tune works station_num udp_port) =
      handle_set_station repl works station_num udp_port >>= λ r. pure (tuned_in r)
  perform_on (leave udp_port) = handle_disconnect repl udp_port >>= λ r. pure (r.0)

module _ (codec : Codec) where
  abbrev pub perform : Call → Go Pair Bool
  perform c = perform_on (coordinator codec) c

  abbrev pub and_more : Bool → Go Pair Bool → Go Pair Bool
  and_more true rest = rest
  and_more false rest = pure false

  -- The requests in turn, as long as they succeed.
  unfoldable pub perform_all : List Call → Go Pair Bool
  perform_all [] = pure true
  perform_all (c ∷ cs) = let rest = perform_all cs in perform c >>= λ told. and_more told rest
