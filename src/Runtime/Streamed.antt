-- ===== src/Runtime/Streamed.antt =====
-- One tick of a station's stream on a consistent state.
use snowcast.Prelude.{
  ℕ, ◌<◌, ◌≡◌, refl, sym, ap, ◌∙◌, fun_ext, Text, pos, Option, none, some, false, List, [], ◌∷◌,
  map, get_elem?, count,
}
use snowcast.Run.{done, Ends, ends, Ends-mono, Ends-bind}
use snowcast.Protocol.{ServerEvent, announce}
use snowcast.State.Store.{State, Station, UdpAddr, lookup}
use snowcast.State.Invariant.{IsConsistent}
use snowcast.State.Effects.{IsPlaced}
use snowcast.State.Roster.{roster, station_of}
use snowcast.Runtime.Stream.{
  ReadEnd, no_error, at_eof, read_failed, send_packets, announce_loop, stream_tick,
}
use snowcast.Runtime.Queues.{filled, offers-filled, Pushed, offer_all-Pushed}

module _ {event : ServerEvent} {n : ℕ → ℕ} {s t : State} (r : Pushed event n s t) where
  was :
      (k : Text) (p : ℕ) → lookup k t.current_clients ≡ some p → lookup k s.current_clients ≡ some p
  was k p e = ap (lookup k) (sym r.current_clients) ∙ e

  IsPlaced-Pushed : (p : ℕ) → IsPlaced p s → IsPlaced p t
  IsPlaced-Pushed p at = record {
    stationed = rw (r.curr_station p, r.station_list) at.stationed;
    listed = λ y. rw (r.curr_station p, r.station_list) (at.listed y);
  }

  IsConsistent-Pushed : IsConsistent s → IsConsistent t
  IsConsistent-Pushed h = record {
    allocated = λ k p e. rw r.next (h.allocated k p (was k p e));
    unaliased = λ j k p e f. h.unaliased j k p (was j p e) (was k p f);
    placed = λ k p e. IsPlaced-Pushed p (h.placed k p (was k p e));
    registered = λ p y m.
        let (k, e) = h.registered p y (rw r.station_list at m) in (k, rw r.current_clients e);
    open_chan = λ k p e. r.closed p ∙ h.open_chan k p (was k p e);
  }

  roster-Pushed : roster t ≡ roster s
  unfolding roster
  roster-Pushed = fun_ext λ k. rw r.current_clients (by_client (lookup k s.current_clients))
    where
      by_client : (c : Option ℕ) → station_of t.heap c ≡ station_of s.heap c
      by_client none = refl
      by_client (some p) = ap some (r.curr_station p)

-- How often a client is offered the announcement: once for each place in the list, at the end of the
-- file only.
abbrev pub offered : ReadEnd → List ℕ → ℕ → ℕ
offered at_eof ps p = count p ps
offered no_error ps p = 0
offered read_failed ps p = 0

abbrev pub packets_to : List ℕ → List ℕ → State → List (UdpAddr × List ℕ)
packets_to [] ps s = []
packets_to (b ∷ bs) ps s = map (λ p. ((s.heap p).udp_addr, b ∷ bs)) ps

-- The outcome of a tick of the station whose clients are `ps`.
pub record Streamed (filename : Text) (chunk : List ℕ) (ended : ReadEnd) (ps : List ℕ) (s : State)
    (sent : List (UdpAddr × List ℕ)) (t : State) : Type 0 where
  pub packets : sent ≡ packets_to chunk ps s
  pub consistent : IsConsistent t
  pub roster : roster t ≡ roster s
  pub queue :
      (p : ℕ)
      → (t.heap p).event_chan.queue
        ≡ filled (offered ended ps p) (announce filename) ((s.heap p).event_chan.queue)

open_listed :
    (id : ℕ) (st : Station) (s : State)
    → IsConsistent s
    → get_elem? s.station_list id ≡ some st
    → (p : ℕ) → 0 < count p st.clients
    → (s.heap p).event_chan.closed ≡ false
open_listed id st s h found p n =
    let (k, e) = h.registered p (pos id) (rw found n) in h.open_chan k p e

announce_loop-Streamed :
    (id : ℕ) (filename : Text) (chunk : List ℕ) (ended : ReadEnd) (st : Station) (s : State)
    → IsConsistent s
    → get_elem? s.station_list id ≡ some st
    → Ends
        (λ _ t. Streamed filename chunk ended st.clients s (packets_to chunk st.clients s) t)
        (announce_loop id filename ended s)
unfolding announce_loop
announce_loop-Streamed id filename chunk no_error st s h found = ends (record {
  packets = refl;
  consistent = h;
  roster = refl;
  queue = λ p. offers-filled 0 (announce filename) _;
})
announce_loop-Streamed id filename chunk read_failed st s h found = ends (record {
  packets = refl;
  consistent = h;
  roster = refl;
  queue = λ p. offers-filled 0 (announce filename) _;
})
announce_loop-Streamed id filename chunk at_eof st s h found =
    rw (found, announce_loop)
      (Ends-mono (offer_all-Pushed (announce filename) st.clients s (open_listed id st s h found))
        λ _ t r. record {
          packets = refl;
          consistent = IsConsistent-Pushed r h;
          roster = roster-Pushed r;
          queue = λ p. r.queue p ∙ offers-filled (count p st.clients) (announce filename) _;
        })

pub send_packets_lem :
    (id : ℕ) (chunk : List ℕ) (st : Station) (s : State)
    → get_elem? s.station_list id ≡ some st
    → send_packets id chunk s ≡ done (packets_to chunk st.clients s) s
unfolding send_packets
send_packets_lem id [] st s found = refl
send_packets_lem id (b ∷ bs) st s found = rw (found, send_packets) refl

-- On a consistent state, a tick of the stream of an existing station does not panic, sends the
-- chunk that was read, if it is not empty, to each client of the station once, and at the end of
-- the file puts the announcement behind what is in the channel of each client in the station's
-- list, once for each place in the list and as long as the channel holds fewer than 100 events, and
-- leaves every other channel as it was; the invariant holds and no client moves.
pub stream_tick-Streamed :
    (id : ℕ) (filename : Text) (chunk : List ℕ) (ended : ReadEnd) (st : Station) (s : State)
    → IsConsistent s
    → get_elem? s.station_list id ≡ some st
    → Ends
        (λ packets t. Streamed filename chunk ended st.clients s packets t)
        (stream_tick id filename chunk ended s)
unfolding stream_tick
stream_tick-Streamed id filename chunk ended st s h found =
    rw (send_packets_lem id chunk st s found)
      (Ends-bind (announce_loop-Streamed id filename chunk ended st s h found) λ _ t r. ends r)
