-- ===== src/Runtime/Session.antt =====
-- A session of the operator, and the streams that still run when it ends.
use snowcast.Prelude.{
  ℕ, ◌<◌, ◌≡◌, refl, inl, inr, Text, codes, pos, Bool, true, false, Bool-cases, some, List, [], ◌∷◌,
  get_elem?, count, arith, ==_refl, text_eq,
}
use snowcast.Run.{panic, Go, Ends, ends, Ends-mono, Ends-bind}
use snowcast.State.Store.{State, Station}
use snowcast.State.Invariant.{IsConsistent}
use snowcast.Runtime.Stream.{at_eof, offer, offer_all, announce_loop, stream_tick}
use snowcast.Runtime.Streamed.{send_packets_lem}
use snowcast.Runtime.Operator.{
  Reply, silent, printed, saved, exited, fields, and_reply, then_more, print_stations,
  close_clients, handle_words, handle_user_input,
}
use snowcast.Runtime.Quit.{AreClosed, close_clients-AreClosed}

-- A command changes nothing, or it is the exit, and closed every client.
abbrev Handled : State → Reply → State → Type 0
Handled s silent t = t ≡ s
Handled s (printed text) t = t ≡ s
Handled s (saved path text) t = t ≡ s
Handled s exited t = AreClosed s t

module _ (ip_string : Text → Text) where
  print_stations-Handled :
      (words : List Text) (s : State) → Handled s (print_stations ip_string words s) s
  unfolding print_stations
  print_stations-Handled [] s = refl
  print_stations-Handled (path ∷ []) s = refl
  print_stations-Handled (path ∷ more ∷ rest) s = refl

  handle_words-Handled :
      (words : List Text) (s : State)
      → IsConsistent s
      → Ends (Handled s) (handle_words ip_string words s)
  unfolding handle_words
  handle_words-Handled [] s h = ends refl
  handle_words-Handled (word ∷ rest) s h = elim (Bool-cases (text_eq word (codes "p"))) [
    | inl is_p ↦ rw is_p (ends (print_stations-Handled rest s))
    | inr not_p ↦ elim (Bool-cases (text_eq word (codes "q"))) [
      | inl is_q ↦ rw (not_p, is_q) (Ends-bind (close_clients-AreClosed s h) λ _ t r. ends r)
      | inr not_q ↦ rw (not_p, not_q) (ends refl)
    ]
  ]

  -- The end of a session: the process exited with every client closed, or it waits as it was.
  abbrev pub Ended : State → List Reply × Bool → State → Type 0
  Ended s (replies, true) t = AreClosed s t
  Ended s (replies, false) t = t ≡ s

  and_reply-Ended :
      (s : State) (reply : Reply) (o : List Reply × Bool) (t : State)
      → Ended s o t
      → Ended s (and_reply reply o) t
  and_reply-Ended s reply (replies, true) t r = r
  and_reply-Ended s reply (replies, false) t r = r

  then_more-Ended :
      (reply : Reply) (rest : Go State (List Reply × Bool)) (s t : State)
      → Handled s reply t
      → Ends (Ended s) (rest s)
      → Ends (Ended s) (then_more reply rest t)
  then_more-Ended exited rest s t r more = ends r
  then_more-Ended silent rest s t r more = rw r more
  then_more-Ended (printed text) rest s t r more =
      rw r (Ends-bind more λ o u q. ends (and_reply-Ended s (printed text) o u q))
  then_more-Ended (saved path text) rest s t r more =
      rw r (Ends-bind more λ o u q. ends (and_reply-Ended s (saved path text) o u q))

  -- On a consistent state, the commands of the operator do not panic, whatever the lines: either
  -- the process exited, no client is left in the map and the channel of everyone who was there is
  -- closed, or the state is as it was.
  pub handle_user_input-Ended :
      (lines : List Text) (s : State)
      → IsConsistent s
      → Ends (Ended s) (handle_user_input ip_string lines s)
  unfolding handle_user_input
  handle_user_input-Ended [] s h = ends refl
  handle_user_input-Ended (line ∷ lines) s h =
      Ends-bind (handle_words-Handled (fields line) s h) λ reply t r.
        then_more-Ended reply (handle_user_input ip_string lines) s t r
          (handle_user_input-Ended lines s h)

tick_panics :
    (id : ℕ) (filename : Text) (chunk : List ℕ) (st : Station) (p : ℕ) (ps : List ℕ) (t : State)
    → get_elem? t.station_list id ≡ some st
    → st.clients ≡ p ∷ ps
    → (t.heap p).event_chan.closed ≡ true
    → stream_tick id filename chunk at_eof t ≡ panic t
unfolding stream_tick announce_loop offer_all offer
tick_panics id filename chunk st p ps t found listed shut =
    rw (send_packets_lem id chunk st t found, announce_loop, found, listed, offer_all, offer, shut)
      refl

-- On a consistent state, once the operator's exit closed the clients' channels, the next tick at
-- the end of the file of a station that has a listener panics.
pub close_clients-panics :
    (id : ℕ) (filename : Text) (chunk : List ℕ) (st : Station) (p : ℕ) (ps : List ℕ) (s : State)
    → IsConsistent s
    → get_elem? s.station_list id ≡ some st
    → st.clients ≡ p ∷ ps
    → Ends (λ _ t. stream_tick id filename chunk at_eof t ≡ panic t) (close_clients s)
close_clients-panics id filename chunk st p ps s h found listed =
    let some_there : 0 < count p st.clients = rw listed (ground (arith, ==_refl p)) in
    let (k, registered) = h.registered p (pos id) (rw found some_there) in
    Ends-mono (close_clients-AreClosed s h) λ _ t r.
      tick_panics id filename chunk st p ps t (rw r.station_list found) listed
        (r.closed k p registered)
