-- ===== src/Control/Drain.antt =====
-- The loop at the end of `SetStation` over the client's channel: what `Disconnect` leaves in it is sent,
-- and then the loop returns.
use snowcast.Prelude.{
  ℕ, ◌≡◌, refl, sym, ap, ◌∙◌, fun_ext, Text, Bool, true, false, Option, none, some, List, [], ◌∷◌,
  ◌==◌, arith, Bool-cases, inl, inr, ==_iff,
}
use snowcast.Run.{Ends, Ends-mono}
use snowcast.Protocol.{ServerEvent, Error, stream_closed}
use snowcast.State.Store.{State, ClientInfo, lookup, update}
use snowcast.State.Apply.{apply_disconnect}
use snowcast.State.Invariant.{IsConsistent}
use snowcast.State.Disconnect.{closed_client, apply_disconnect-Departed}
use snowcast.Control.Stream.{Status, returned, waiting, and_sent}

abbrev pub emptied : List ServerEvent → ClientInfo → ClientInfo
emptied queue c = record c { event_chan = record (c.event_chan) { queue = queue } }

abbrev pub with_queue : ℕ → List ServerEvent → State → State
with_queue p queue s = record s { heap = update s.heap p (emptied queue (s.heap p)) }

abbrev pub Forwarded : Type 0
Forwarded = (List ServerEvent × Status) × State

-- One `select` that takes from the channel, by what is in it; `works` is the outcome of the `Send`.
-- An open channel with nothing in it blocks.
unfoldable pub take_event :
    ℕ
    → (works : Bool) → (State → Forwarded)
    → List ServerEvent
    → (closed : Bool) → State
    → Forwarded
take_event p works rest [] true s = (([], returned none), s)
take_event p works rest [] false s = (([], waiting), s)
take_event p true rest (event ∷ queue) closed s =
    let after = rest (with_queue p queue s) in (and_sent event after.0, after.1)
take_event p false rest (event ∷ queue) closed s =
    (([], returned (some stream_closed)), with_queue p queue s)

-- The loop, with the outcomes of its sends in turn, while the stream's context lives.
unfoldable pub forward_from : ℕ → (sends : List Bool) → State → Forwarded
unfolding take_event
forward_from p [] s = (([], waiting), s)
forward_from p (works ∷ sends) s =
    let rest = λ (t : State). forward_from p sends t in
    take_event p works rest (s.heap p).event_chan.queue (s.heap p).event_chan.closed s

-- Sends that work, one more than the events.
abbrev pub enough : List ServerEvent → List Bool
enough [] = true ∷ []
enough (e ∷ es) = true ∷ enough es

abbrev pub ended : Bool → Status
ended true = returned none
ended false = waiting

update-update :
    (h : ℕ → ClientInfo) (p : ℕ) (c d : ClientInfo) → update (update h p c) p d ≡ update h p d
update-update h p c d = fun_ext λ q. ground arith

self : (p : ℕ) → (p == p) ≡ true
self p = ground arith

heap-with_queue :
    (p : ℕ) (q : List ServerEvent) (s : State) → (with_queue p q s).heap p ≡ emptied q (s.heap p)
heap-with_queue p q s = rw (self p) refl

with_queue-with_queue :
    (p : ℕ) (q r : List ServerEvent) (s : State)
    → with_queue p r (with_queue p q s) ≡ with_queue p r s
with_queue-with_queue p q r s =
    ap (λ c. record s { heap = update (with_queue p q s).heap p (emptied r c) })
      (heap-with_queue p q s)
    ∙ ap (λ h. record s { heap = h })
        (update-update s.heap p (emptied q (s.heap p)) (emptied r (s.heap p)))

update-same : (h : ℕ → ClientInfo) (p : ℕ) (c : ClientInfo) → c ≡ h p → update h p c ≡ h
update-same h p c e = fun_ext λ q. elim (Bool-cases (p == q)) [
  | inl same ↦ rw same (e ∙ ap h ((==_iff p q).0 same))
  | inr other ↦ rw other refl
]

with_queue-same :
    (p : ℕ) (q : List ServerEvent) (s : State)
    → (s.heap p).event_chan.queue ≡ q
    → with_queue p q s ≡ s
with_queue-same p q s at =
    ap (λ h. record s { heap = h })
      (update-same s.heap p (emptied q (s.heap p)) (ap (λ z. emptied z (s.heap p)) (sym at)))

nothing_left :
    (p : ℕ) (rest : State → Forwarded) (closed : Bool) (s : State)
    → take_event p true rest [] closed s ≡ (([], ended closed), s)
unfolding take_event
nothing_left p rest true s = refl
nothing_left p rest false s = refl

pub forward_from-all :
    (p : ℕ) (queue : List ServerEvent) (s : State)
    → (s.heap p).event_chan.queue ≡ queue
    → forward_from p (enough queue) s
      ≡ ((queue, ended (s.heap p).event_chan.closed), with_queue p [] s)
unfolding forward_from take_event
forward_from-all p [] s at =
    rw at (nothing_left p (λ t. (([], waiting), t)) (s.heap p).event_chan.closed s)
    ∙ ap (λ t. (([], ended (s.heap p).event_chan.closed), t)) (sym (with_queue-same p [] s at))
forward_from-all p (e ∷ queue) s at =
    let t = with_queue p queue s in
    let front = heap-with_queue p queue s in
    let more : forward_from p (enough queue) t
        ≡ ((queue, ended (t.heap p).event_chan.closed), with_queue p [] t) =
      forward_from-all p queue t (ap (λ c. c.event_chan.queue) front) in
    let rest : forward_from p (enough queue) t
        ≡ ((queue, ended (s.heap p).event_chan.closed), with_queue p [] s) =
      more
      ∙ ap (λ b. ((queue, ended b), with_queue p [] t)) (ap (λ c. c.event_chan.closed) front)
      ∙ ap (λ u. ((queue, ended (s.heap p).event_chan.closed), u))
          (with_queue-with_queue p queue [] s) in
    rw at (ap (λ f. (and_sent e f.0, f.1)) rest)

-- There is no error, and from here the loop sends these events, empties the channel and returns nil.
abbrev pub LeavesNothing : ℕ → List ServerEvent → Option Error → State → Type 0
LeavesNothing p queue err t =
    (err ≡ none) × (forward_from p (enough queue) t ≡ ((queue, returned none), with_queue p [] t))

-- On a consistent state, disconnecting a registered client returns no error, and from then on the
-- loop at the end of its SetStation, whose sends work, sends the events that were in the client's
-- channel, in order, leaves it empty and returns nil.
pub forward_from-apply_disconnect :
    {s : State} {p : ℕ} (key : Text)
    → IsConsistent s
    → lookup key s.current_clients ≡ some p
    → Ends (LeavesNothing p (s.heap p).event_chan.queue) (apply_disconnect key s)
forward_from-apply_disconnect {s} {p} key h found =
    Ends-mono (apply_disconnect-Departed key h found) λ err t d.
      let at : t.heap p ≡ closed_client (s.heap p) = rw (d.1.heap, self p) refl in
      (
        d.0,
        forward_from-all p (s.heap p).event_chan.queue t (ap (λ c. c.event_chan.queue) at)
            ∙ ap (λ b. (((s.heap p).event_chan.queue, ended b), with_queue p [] t))
                (ap (λ c. c.event_chan.closed) at),
      )
