-- ===== src/Runtime/Serve.antt =====
-- `Serve` and `Stop` of internal/runtime/runtime.go: sockets, the goroutines of the streams, and the
-- servers that were handed out. Sockets and servers are addresses.
use snowcast.Prelude.{
  ℕ, ◌+◌, Text, Bool, true, false, Option, none, some, List, [], ◌∷◌, ◌++◌, ◌==◌, if◌then◌else◌,
}
use snowcast.Run.{Result, ok, err}
use snowcast.Protocol.{Error, udp_addr, udp_listen, tcp_listen}

-- What the calls of package net meet, and which files the goroutines can open.
pub record Ports : Type 0 where
  pub udp_resolves : Bool
  pub udp_listens : Bool
  pub tcp_listens : Bool
  pub opens : Text → Bool

-- A goroutine `streamStation` behind the opening of its file.
pub record Stream : Type 0 where
  pub station : ℕ
  pub filename : Text
  pub socket : ℕ

-- `Server`; `accepting` is its gRPC server.
pub record Server : Type 0 where
  pub socket : ℕ
  pub accepting : Bool
  pub stopped : Bool

-- The process: which sockets are open, the streams that run, and the servers.
pub record Host : Type 0 where
  pub is_open : ℕ → Bool
  pub next_socket : ℕ
  pub streams : List Stream
  pub servers : ℕ → Server
  pub next_server : ℕ

abbrev pub set : {A : Type 0} → (ℕ → A) → ℕ → A → ℕ → A
set f p a q = if p == q then a else f q

-- The loop over the files, from station `i` on; a goroutine whose file does not open returns.
unfoldable pub start_streams :
    (opens : Text → Bool) → (i : ℕ) → List Text → (socket : ℕ) → List Stream
start_streams opens i [] socket = []
start_streams opens i (path ∷ files) socket =
    let more = start_streams opens (i + 1) files socket in
    if opens path then record { station = i; filename = path; socket = socket } ∷ more else more

-- `Serve` with its UDP socket: the streams run before the other port is tried.
unfoldable pub serve_streaming : (tcp_listens : Bool) → Host → Result Error ℕ × Host
serve_streaming false h = (
  err tcp_listen,
  record h { is_open = set h.is_open h.next_socket false; next_socket = h.next_socket + 1 },
)
serve_streaming true h = (
  ok h.next_server,
  record h {
    next_socket = h.next_socket + 1;
    servers =
        set h.servers h.next_server
          (record { socket = h.next_socket; accepting = true; stopped = false });
    next_server = h.next_server + 1;
  },
)

unfoldable pub serve : Ports → List Text → Host → Result Error ℕ × Host
unfolding serve_streaming
serve ports files h =
    if ports.udp_resolves
    then if ports.udp_listens
      then serve_streaming ports.tcp_listens (record h {
        is_open = set h.is_open h.next_socket true;
        streams = h.streams ++ start_streams ports.opens 0 files h.next_socket;
      })
      else (err udp_listen, h)
    else (err udp_addr, h)

-- `Stop` behind its test for nil: `GracefulStop` takes no more calls and waits for those that run, which
-- `calls_end` says of them. Where they do not end the socket stays open.
unfoldable pub stop_server : (calls_end : Bool) → ℕ → Host → Host
stop_server calls_end p h = if (h.servers p).stopped then h else record h {
  servers = set h.servers p (record (h.servers p) { accepting = false; stopped = true });
  is_open = if calls_end then set h.is_open (h.servers p).socket false else h.is_open;
}

-- `none` stands for nil.
unfoldable pub stop : (calls_end : Bool) → Option ℕ → Host → Host
unfolding stop_server
stop calls_end none h = h
stop calls_end (some p) h = stop_server calls_end p h
