-- ===== src/Client/Session.antt =====
-- `main`, `handleUserInput` and `handleServerStream` of cmd/snowcast_control/main.go. What the calls of the
-- gRPC client meet is given; the requests and the lines that are printed are the result.
use snowcast.Prelude.{
  ℕ, Text, codes, Bool, true, false, Option, none, some, List, [], ◌∷◌, ◌++◌, text_eq,
  if◌then◌else◌,
}
use snowcast.Protocol.{ServerEvent, announce, invalid}
use snowcast.Client.Input.{
  NumError, no_error, syntax_error, range_error, check_only_numbers, parse_uint16, trim_space,
}

-- `stream.Recv()`.
pub data Recv : Type 0 where
  received : ServerEvent → Recv
  at_end : Recv
  stream_failed : Recv

-- The lines of the output, by their formats.
pub data Line : Type 0 where
  welcome : (num_stations : ℕ) → Line
  new_song : (song : Text) → Line
  invalid_reply : (reply : Text) → Line
  stream_error : Line
  parse_error : NumError → Line
  set_station_error : Line
  invalid_input : Text → Line

-- The lines that the stream gives, and whether the loop returned.
unfoldable pub handle_server_stream : List Recv → List Line × Bool
handle_server_stream [] = ([], false)
handle_server_stream (at_end ∷ more) = ([], true)
handle_server_stream (stream_failed ∷ more) = (stream_error ∷ [], true)
handle_server_stream (received (invalid reply) ∷ more) = (invalid_reply reply ∷ [], true)
handle_server_stream (received (announce song) ∷ more) =
    let (lines, returned) = handle_server_stream more in (new_song song ∷ lines, returned)

-- `SetStation` of the gRPC client: an error, or a stream.
pub data Answer : Type 0 where
  refused : Answer
  streaming : List Recv → Answer

pub data Request : Type 0 where
  handshake : (udp_port : ℕ) → Request
  set_station : (station_number udp_port : ℕ) → Request
  disconnect : (udp_port : ℕ) → Request

-- What the client did, and whether it got to its end; it may wait at a call, a stream or the terminal.
pub record Trace : Type 0 where
  pub requests : List Request
  pub output : List Line
  pub joined_station : Bool
  pub returned : Bool

abbrev pub quiet : (joined returned : Bool) → Trace
quiet joined returned = record {
  requests = [];
  output = [];
  joined_station = joined;
  returned = returned;
}

abbrev pub printing : List Line → Trace → Trace
printing [] t = t
printing (l ∷ ls) t = let rest = printing ls t in record rest { output = l ∷ rest.output }

abbrev pub requesting : Request → Trace → Trace
requesting r t = record t { requests = r ∷ t.requests }

-- The complaint about a number is all that becomes of its error.
abbrev pub complaint : NumError → List Line
complaint no_error = []
complaint e = parse_error e ∷ []

-- The lines of the terminal end with the end of the input.
module _ (other_digit : ℕ → Bool) (listener_port : ℕ) where
  -- Behind the stream of a call: the loop goes on, or it waits.
  abbrev pub after_stream : List Line × Bool → Trace → Trace
  after_stream (lines, true) rest = printing lines rest
  after_stream (lines, false) rest = printing lines (quiet true false)

  -- A station's number is requested; `rest` is the session behind it, by `joined_station`, with the
  -- answers that are left.
  unfoldable pub request_station :
      ℕ × NumError → List Answer → Bool → (List Answer → Bool → Trace) → Trace
  request_station (number, e) [] joined rest =
      printing (complaint e) (requesting (set_station number listener_port) (quiet joined false))
  request_station (number, e) (refused ∷ answers) joined rest = printing (complaint e) (
      requesting (set_station number listener_port)
        (printing (set_station_error ∷ []) (rest answers joined)))
  request_station (number, e) (streaming events ∷ answers) joined rest = printing (complaint e) (
      requesting (set_station number listener_port)
        (after_stream (handle_server_stream events) (rest answers true)))

  unfoldable pub handle_input : Text → List Answer → Bool → (List Answer → Bool → Trace) → Trace
  unfolding request_station
  handle_input input answers joined rest =
      if text_eq input (codes "q")
      then quiet joined true
      else if text_eq input []
      then rest answers joined
      else if check_only_numbers other_digit input
      then request_station (parse_uint16 input) answers joined rest
      else printing (invalid_input input ∷ []) (rest answers joined)

  unfoldable pub handle_user_input : List Text → List Answer → Bool → Trace
  unfolding handle_input
  handle_user_input [] answers joined = quiet joined true
  handle_user_input (line ∷ lines) answers joined =
      let rest = handle_user_input lines in handle_input (trim_space line) answers joined rest

  -- The loop, and `Disconnect` where it returned.
  abbrev pub then_disconnect : Trace → Trace
  then_disconnect t = elim t.returned [
    | true ↦ record t { requests = t.requests ++ disconnect listener_port ∷ [] }
    | false ↦ t
  ]

  -- `main` from the handshake on: its reply has the number of stations.
  unfoldable pub run_client : Option ℕ → List Text → List Answer → Trace
  unfolding handle_user_input
  run_client none lines answers = requesting (handshake listener_port) (quiet false false)
  run_client (some num_stations) lines answers = requesting (handshake listener_port) (
      printing (welcome num_stations ∷ [])
        (then_disconnect (handle_user_input lines answers false)))

abbrev pub with_port : (ℕ → Trace) → ℕ × NumError → Option Trace
with_port client (port, no_error) = some (client port)
with_port client (port, syntax_error) = none
with_port client (port, range_error) = none

-- `main`: the arguments are those behind the program's name; `none` is `log.Fatalf` over them.
unfoldable pub main :
    (other_digit : ℕ → Bool) → List Text → Option ℕ → List Text → List Answer → Option Trace
unfolding run_client
main other_digit (ip ∷ server_port ∷ port ∷ []) reply lines answers =
    with_port (λ listener_port. run_client other_digit listener_port reply lines answers)
      (parse_uint16 port)
main other_digit _ reply lines answers = none
