-- ===== src/Runtime/Queues.antt =====
-- The announcements that a list of clients is offered, by client.
use snowcast.Prelude.{
  ℕ, zero, suc, ◌+◌, ◌<◌, ◌-◌, ◌≡◌, refl, sym, ◌∙◌, ◌++◌, ltb, length, length-append, append-nil,
  append_assoc, Bool-cases, inl, inr, false, List, [], ◌∷◌, arith, count, ◌==◌, ==_iff, ==_refl,
  if◌then◌else◌,
}
use snowcast.Run.{done, Ends, ends, Ends-mono}
use snowcast.Protocol.{ServerEvent}
use snowcast.State.Store.{State, update}
use snowcast.Runtime.Stream.{push, offer, offer_all}

-- The queue after so many offers.
abbrev pub offers : ℕ → ServerEvent → List ServerEvent → List ServerEvent
offers zero e q = q
offers (suc n) e q = offers n e (push e q)

abbrev pub copies : ℕ → ServerEvent → List ServerEvent
copies zero e = []
copies (suc n) e = e ∷ copies n e

abbrev pub least : ℕ → ℕ → ℕ
least m n = if ltb m n then m else n

-- A queue with as many copies of an event behind it as there is room for.
abbrev pub filled : ℕ → ServerEvent → List ServerEvent → List ServerEvent
filled n e q = q ++ copies (least n (100 - length q)) e

pub offers-filled : (n : ℕ) (e : ServerEvent) (q : List ServerEvent) → offers n e q ≡ filled n e q
offers-filled zero e q =
    let none_left : least 0 (100 - length q) ≡ 0 = ground arith in rw none_left (sym (append-nil q))
offers-filled (suc n) e q = elim (Bool-cases (ltb (length q) 100)) [
  | inl room ↦
      let grown : length (q ++ e ∷ []) ≡ length q + 1 = length-append q (e ∷ []) in
      let one : least (suc n) (100 - length q) ≡ suc (least n (100 - length (q ++ e ∷ []))) =
        ground (arith, room, grown) in
      rw (room, offers-filled n e (q ++ e ∷ []), one) (append_assoc q (e ∷ []) _)
  | inr full ↦
      let none_left : (k : ℕ) → least k (100 - length q) ≡ 0 = λ k. ground (arith, full) in
      rw (full, offers-filled n e q, none_left n, none_left (suc n)) refl
]

-- Only the queues changed, each by its number of offers.
pub record Pushed (event : ServerEvent) (n : ℕ → ℕ) (s t : State) : Type 0 where
  pub next : t.next ≡ s.next
  pub current_clients : t.current_clients ≡ s.current_clients
  pub station_list : t.station_list ≡ s.station_list
  pub udp_addr : (p : ℕ) → (t.heap p).udp_addr ≡ (s.heap p).udp_addr
  pub curr_station : (p : ℕ) → (t.heap p).curr_station ≡ (s.heap p).curr_station
  pub closed : (p : ℕ) → (t.heap p).event_chan.closed ≡ (s.heap p).event_chan.closed
  pub queue :
      (p : ℕ) → (t.heap p).event_chan.queue ≡ offers (n p) event ((s.heap p).event_chan.queue)

abbrev pushed_to : ServerEvent → ℕ → State → State
pushed_to event q s = record s {
  heap = update s.heap q (record (s.heap q) {
    event_chan = record ((s.heap q).event_chan) { queue = push event (s.heap q).event_chan.queue };
  });
}

offers-pushed_to :
    (event : ServerEvent) (q : ℕ) (s : State) (ps : List ℕ) (p : ℕ)
    → offers (count p ps) event (((pushed_to event q s).heap p).event_chan.queue)
      ≡ offers (count p (q ∷ ps)) event ((s.heap p).event_chan.queue)
offers-pushed_to event q s ps p = elim (Bool-cases (p == q)) [
  | inl same ↦
      let e : p ≡ q = (==_iff p q).0 same in
      let one : (if p == q then 1 else 0) + count p ps ≡ suc (count p ps) = ground arith in
      rw (one, e, ==_refl q) refl
  | inr other ↦
      let apart : (q == p) ≡ false = ground arith in
      let none : (if p == q then 1 else 0) + count p ps ≡ count p ps = ground arith in
      rw (none, apart) refl
]

closed-pushed_to :
    (event : ServerEvent) (q : ℕ) (s : State) (p : ℕ)
    → ((pushed_to event q s).heap p).event_chan.closed ≡ (s.heap p).event_chan.closed
closed-pushed_to event q s p = ground (arith, ==_iff q p)

offer-open :
    (event : ServerEvent) (q : ℕ) (s : State)
    → (s.heap q).event_chan.closed ≡ false
    → offer event q s ≡ done tt (pushed_to event q s)
unfolding offer
offer-open event q s e = rw e refl

pub offer_all-Pushed :
    (event : ServerEvent) (ps : List ℕ) (s : State)
    → ((p : ℕ) → 0 < count p ps → (s.heap p).event_chan.closed ≡ false)
    → Ends (λ _ t. Pushed event (λ p. count p ps) s t) (offer_all event ps s)
unfolding offer_all
offer_all-Pushed event [] s h = ends (record {
  next = refl;
  current_clients = refl;
  station_list = refl;
  udp_addr = λ p. refl;
  curr_station = λ p. refl;
  closed = λ p. refl;
  queue = λ p. refl;
})
offer_all-Pushed event (q ∷ ps) s h = rw (offer-open event q s (h q (ground (arith, ==_refl q)))) (
    Ends-mono
      (offer_all-Pushed event ps (pushed_to event q s)
        (λ p n. closed-pushed_to event q s p ∙ h p (ground arith)))
      λ _ t r. record {
        next = r.next;
        current_clients = r.current_clients;
        station_list = r.station_list;
        udp_addr = λ p. r.udp_addr p ∙ ground (arith, ==_iff q p);
        curr_station = λ p. r.curr_station p ∙ ground (arith, ==_iff q p);
        closed = λ p. r.closed p ∙ closed-pushed_to event q s p;
        queue = λ p. r.queue p ∙ offers-pushed_to event q s ps p;
      })
