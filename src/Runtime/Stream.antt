-- ===== src/Runtime/Stream.antt =====
-- `streamStation` of internal/runtime/runtime.go: what one tick does. The audio file and the socket
-- are outside: a tick is given what `file.Read` returned, and gives back the packets.
use snowcast.Prelude.{
  ℕ, Text, pos, none, some, List, [], ◌∷◌, ◌++◌, map, length, ltb, if◌then◌else◌,
}
use snowcast.Run.{done, panic, Go, pure, ◌>>=◌, ◌>>◌}
use snowcast.Protocol.{ServerEvent, announce}
use snowcast.State.Store.{State, UdpAddr, update, station_at}

-- The error of a read: none, the end of the file, or another one.
pub data ReadEnd : Type 0 where
  no_error : ReadEnd
  at_eof : ReadEnd
  read_failed : ReadEnd

-- The capacity of an event channel.
abbrev pub capacity : ℕ
capacity = 100

abbrev pub push : ServerEvent → List ServerEvent → List ServerEvent
push event queue = if ltb (length queue) capacity then queue ++ event ∷ [] else queue

-- A send that does not block: a full channel drops the event, a closed one panics.
unfoldable pub offer : ServerEvent → ℕ → Go State (Unit {0})
offer event p s =
    let c = s.heap p in
    if c.event_chan.closed
    then panic s
    else done tt (record s {
      heap = update s.heap p (record c {
        event_chan = record (c.event_chan) { queue = push event c.event_chan.queue };
      });
    })

unfoldable pub offer_all : ServerEvent → List ℕ → Go State (Unit {0})
unfolding offer
offer_all event [] = pure tt
offer_all event (p ∷ ps) = offer event p >> offer_all event ps

-- The packets of a chunk that is not empty, one for each client of the station.
unfoldable pub send_packets : ℕ → List ℕ → Go State (List (UdpAddr × List ℕ))
send_packets id [] s = done [] s
send_packets id (b ∷ bs) s = elim (station_at s.station_list (pos id)) [
  | none ↦ panic s
  | some st ↦ done (map (λ p. ((s.heap p).udp_addr, b ∷ bs)) st.clients) s
]

unfoldable pub announce_loop : ℕ → Text → ReadEnd → Go State (Unit {0})
unfolding offer_all
announce_loop id filename no_error s = done tt s
announce_loop id filename read_failed s = done tt s
announce_loop id filename at_eof s = elim (station_at s.station_list (pos id)) [
  | none ↦ panic s
  | some st ↦ offer_all (announce filename) st.clients s
]

unfoldable pub stream_tick : ℕ → Text → List ℕ → ReadEnd → Go State (List (UdpAddr × List ℕ))
unfolding send_packets announce_loop
stream_tick id filename chunk ended = do
  packets ← send_packets id chunk
  announce_loop id filename ended
  pure packets
