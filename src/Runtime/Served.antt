-- ===== src/Runtime/Served.antt =====
-- The streams that outlive their server.
use mathlib.Core.Path.{subst}
use native.Mathlib.Nat.{zero-add}
use snowcast.Prelude.{
  ℕ, ◌+◌, ◌≤◌, ◌≡◌, refl, sym, Text, Bool, true, false, Bool-cases, inl, inr, Option, none, some,
  List, [], ◌∷◌, ◌++◌, ◌&&◌, if◌then◌else◌, arith,
}
use snowcast.Runtime.Serve.{
  Ports, Host, set, start_streams, serve_streaming, serve, stop_server, stop,
}
use snowcast.Runtime.Audible.{
  has_file, streams_of, audible, streams_of-append, audible-append, streams_of-start, audible-start,
  audible-closed, AreBelow, audible-set_new, audible-set-false, AreBelow-more, AreBelow-append,
  AreBelow-start,
}

pub data Event : Type 0 where
  serves : Ports → List Text → Event
  stops : (calls_end : Bool) → Option ℕ → Event

abbrev pub binds_udp : Ports → Bool
binds_udp ports = ports.udp_resolves && ports.udp_listens

abbrev pub AllClosed : Host → Type 0
AllClosed h = (p : ℕ) → h.is_open p ≡ false

-- No socket, no stream and no server.
abbrev pub IsIdle : Host → Type 0
IsIdle h = AllClosed h × (h.streams ≡ [])

-- Runs of a process, the last event first. The system gives the UDP port to one socket at a time.
pub data Reached : List Event → Host → Type 0 where
  idle : {h : Host} → IsIdle h → Reached [] h
  then_serves :
      {es : List Event} {h : Host} (ports : Ports) (files : List Text)
      → Reached es h
      → (binds_udp ports ≡ true → AllClosed h)
      → Reached (serves ports files ∷ es) (serve ports files h).1
  then_stops :
      {es : List Event} {h : Host} (calls_end : Bool) (server : Option ℕ)
      → Reached es h
      → Reached (stops calls_end server ∷ es) (stop calls_end server h)

-- The calls of `Serve` that got as far as the streams, with a file for the station
-- that opens.
abbrev pub binds : ℕ → List Event → ℕ
binds i [] = 0
binds i (serves ports files ∷ es) =
    let before = binds i es in
    if binds_udp ports && has_file ports.opens files i then before + 1 else before
binds i (stops calls_end server ∷ es) = binds i es

-- After these events a station has a stream for each `Serve` that got as far as the streams, and at
-- most one of them is heard.
pub record IsStreaming (es : List Event) (h : Host) : Type 0 where
  pub below : AreBelow h.next_socket h.streams
  pub announcing : (i : ℕ) → streams_of i h.streams ≡ binds i es
  pub heard : (i : ℕ) → audible h.is_open i h.streams ≤ 1

module _ (es : List Event) (h : Host) (before : IsStreaming es h) (ports : Ports)
    (files : List Text) where
  -- The host once the streams run.
  abbrev streaming : Host
  streaming = record h {
    is_open = set h.is_open h.next_socket true;
    next_socket = h.next_socket + 1;
    streams = h.streams ++ start_streams ports.opens 0 files h.next_socket;
  }

  files_started :
      (i : ℕ)
      → streams_of i (start_streams ports.opens 0 files h.next_socket)
        ≡ (if has_file ports.opens files i then 1 else 0)
  files_started i =
      subst
        (λ k.
          streams_of k (start_streams ports.opens 0 files h.next_socket)
          ≡ (if has_file ports.opens files i then 1 else 0))
        (zero-add i) (streams_of-start ports.opens i 0 files h.next_socket)

  streams_of-streaming :
      (i : ℕ)
      → streams_of i streaming.streams
        ≡ streams_of i h.streams + (if has_file ports.opens files i then 1 else 0)
  streams_of-streaming i = ground (
    arith,
    streams_of-append i h.streams (start_streams ports.opens 0 files h.next_socket),
    files_started i,
  )

  audible-streaming : AllClosed h → (i : ℕ) → audible streaming.is_open i streaming.streams ≤ 1
  audible-streaming closed i =
      let new = start_streams ports.opens 0 files h.next_socket in
      let split = audible-append streaming.is_open i h.streams new in
      let old = audible-set_new h.is_open h.next_socket i true h.streams before.below in
      let silent = audible-closed h.is_open i h.streams closed in
      let own = audible-start ports.opens streaming.is_open i 0 files h.next_socket in
      let one = files_started i in ground (arith, split, old, silent, own, one)

  streaming-IsStreaming :
      binds_udp ports ≡ true → AllClosed h → IsStreaming (serves ports files ∷ es) streaming
  streaming-IsStreaming bound closed = record {
    below =
        AreBelow-append (h.next_socket + 1) h.streams
          (start_streams ports.opens 0 files h.next_socket)
          (AreBelow-more h.next_socket h.streams before.below)
          (AreBelow-start ports.opens h.next_socket 0 files);
    announcing = λ i. rw bound (ground (arith, streams_of-streaming i, before.announcing i));
    heard = audible-streaming closed;
  }

  bound_host : (tcp : Bool) → Host
  unfolding serve_streaming
  bound_host tcp =
      (serve_streaming tcp (record h {
        is_open = set h.is_open h.next_socket true;
        streams = h.streams ++ start_streams ports.opens 0 files h.next_socket;
      })).1

  serve-bound : binds_udp ports ≡ true → (serve ports files h).1 ≡ bound_host ports.tcp_listens
  unfolding serve bound_host
  serve-bound bound = elim (Bool-cases ports.udp_resolves) [
    | inr fails ↦ absurd (ground (arith, fails, bound))
    | inl resolves ↦ elim (Bool-cases ports.udp_listens) [
      | inr fails ↦ absurd (ground (arith, fails, bound))
      | inl listens ↦ rw (resolves, listens, serve) refl
    ]
  ]

  serve-unbound : binds_udp ports ≡ false → (serve ports files h).1 ≡ h
  unfolding serve
  serve-unbound unbound = elim (Bool-cases ports.udp_resolves) [
    | inr fails ↦ rw (fails, serve) refl
    | inl resolves ↦ elim (Bool-cases ports.udp_listens) [
      | inr fails ↦ rw (resolves, fails, serve) refl
      | inl listens ↦ absurd (ground (arith, resolves, listens, unbound))
    ]
  ]

  -- A TCP port that is taken closes the socket again; the streams run on.
  bound_host-IsStreaming :
      (tcp : Bool)
      → IsStreaming (serves ports files ∷ es) streaming
      → IsStreaming (serves ports files ∷ es) (bound_host tcp)
  unfolding bound_host serve_streaming
  bound_host-IsStreaming true s = record {
    below = s.below;
    announcing = s.announcing;
    heard = s.heard;
  }
  bound_host-IsStreaming false s = record {
    below = s.below;
    announcing = s.announcing;
    heard = λ i.
        omega
          (arith, s.heard i, audible-set-false streaming.is_open h.next_socket i streaming.streams);
  }

  serve-IsStreaming :
      (binds_udp ports ≡ true → AllClosed h)
      → IsStreaming (serves ports files ∷ es) (serve ports files h).1
  serve-IsStreaming free = elim (Bool-cases (binds_udp ports)) [
    | inl bound ↦
        subst (IsStreaming (serves ports files ∷ es)) (sym (serve-bound bound))
          (bound_host-IsStreaming ports.tcp_listens (streaming-IsStreaming bound (free bound)))
    | inr unbound ↦
        subst (IsStreaming (serves ports files ∷ es)) (sym (serve-unbound unbound)) (record {
          below = before.below;
          announcing = λ i. rw unbound (before.announcing i);
          heard = before.heard;
        })
  ]

stop-IsStreaming :
    (es : List Event) (h : Host) (calls_end : Bool) (server : Option ℕ)
    → IsStreaming es h
    → IsStreaming (stops calls_end server ∷ es) (stop calls_end server h)
unfolding stop stop_server
stop-IsStreaming es h calls_end none before = record {
  below = before.below;
  announcing = before.announcing;
  heard = before.heard;
}
stop-IsStreaming es h calls_end (some p) before = elim (Bool-cases (h.servers p).stopped) [
  | inl already ↦
      rw already
        (record { below = before.below; announcing = before.announcing; heard = before.heard })
  | inr running ↦ rw running (record {
    below = before.below;
    announcing = before.announcing;
    heard = λ i. elim (Bool-cases calls_end) [
      | inl ended ↦ rw ended (
          omega
            (arith, before.heard i, audible-set-false h.is_open (h.servers p).socket i h.streams))
      | inr waiting ↦ rw waiting (before.heard i)
    ];
  })
]

-- In a process that starts without sockets and streams and that calls Serve and Stop in any order,
-- where a UDP port is given out only while no other socket is open, each station has one stream for
-- every Serve that bound the UDP port with a file for it that opens, whatever was stopped since and
-- whether or not the calls at it ended, and at most one of its streams sends to an open socket.
pub Reached-IsStreaming : {es : List Event} {h : Host} → Reached es h → IsStreaming es h
Reached-IsStreaming (idle {h} (closed, none_run)) = record {
  below = rw none_run tt;
  announcing = λ i. rw none_run refl;
  heard = λ i. rw none_run (omega arith);
}
Reached-IsStreaming (then_serves {es} {h} ports files before free) =
    serve-IsStreaming es h (Reached-IsStreaming before) ports files free
Reached-IsStreaming (then_stops {es} {h} calls_end server before) =
    stop-IsStreaming es h calls_end server (Reached-IsStreaming before)
