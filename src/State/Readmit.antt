-- ===== src/State/Readmit.antt =====
-- `RollbackDisconnect`: what it changes, and that the invariant survives.
use snowcast.Prelude.{
  ℕ, ◌<◌, ◌≡◌, ◌≢◌, sym, ap, ◌∙◌, inl, inr, ◌⊎◌, Text, ℤ, int_eq_iff, Bool-cases, false, none, some,
  arith, ◌==◌, ==_iff, text_eq, text_eq_iff, text_eq_refl, length,
}
use snowcast.Run.{Ends, Ends-mono}
use snowcast.State.Store.{State, lookup, put, in_range}
use snowcast.State.Apply.{rollback_disconnect}
use snowcast.State.Maps.{lookup-put}
use snowcast.State.Effects.{
  IsPlaced, count_at, name_at, with_client, in_range-length, append_in_range-Relisted,
}
use snowcast.State.Invariant.{IsConsistent}
use snowcast.State.Moves.{IsStation}

-- `RollbackDisconnect` registers the saved copy at `p` and appends it to the list of its station.
pub record Readmitted (key : Text) (p : ℕ) (s t : State) : Type 0 where
  pub next : t.next ≡ s.next
  pub length : length t.station_list ≡ length s.station_list
  pub names : (y : ℤ) → name_at t.station_list y ≡ name_at s.station_list y
  pub heap : t.heap ≡ s.heap
  pub current_clients : t.current_clients ≡ put key p s.current_clients
  pub counts :
      (q : ℕ) (y : ℤ)
      → count_at t q y ≡ with_client p (s.heap p).curr_station s.station_list (count_at s) q y

pub rollback_disconnect-Readmitted :
    (key : Text) (p : ℕ) (s : State)
    → Ends (λ _ t. Readmitted key p s t) (rollback_disconnect key p s)
unfolding rollback_disconnect
rollback_disconnect-Readmitted key p s =
    Ends-mono
      (append_in_range-Relisted (s.heap p).curr_station p
        (record s { current_clients = put key p s.current_clients }))
      λ _ t a. record {
        next = a.next;
        length = a.length;
        names = a.names;
        heap = a.heap;
        current_clients = a.current_clients;
        counts = a.counts;
      }

-- Readmitting a copy that no key has yet, for a key that is free, keeps the invariant.
module _ {key : Text} {p : ℕ} {s t : State} (r : Readmitted key p s t) (h : IsConsistent s)
    (free : lookup key s.current_clients ≡ none) (allocated : p < s.next)
    (unused : (k : Text) → lookup k s.current_clients ≢ some p)
    (station : IsStation (s.heap p).curr_station s)
    (open_chan : (s.heap p).event_chan.closed ≡ false) where
  unlisted : (y : ℤ) → count_at s p y ≡ 0
  unlisted y =
      ground (arith, absent (count_at s p y) (λ n. let (k, f) = h.registered p y n in unused k f))
    where
      absent : (n : ℕ) → (0 < n → ⊥) → n ≡ 0
      absent n none_there = ground arith

  came :
      (k : Text) (q : ℕ)
      → lookup k t.current_clients ≡ some q
      → ((key ≡ k) × (q ≡ p)) ⊎ ((lookup k s.current_clients ≡ some q) × ((q == p) ≡ false))
  came k q e =
      let read = lookup-put key k p s.current_clients in
      elim (Bool-cases (text_eq key k)) [
        | inl same ↦
            inl ((text_eq_iff key k).0 same, ground (arith, ap (lookup k) r.current_clients, read))
        | inr other ↦
            let old : lookup k s.current_clients ≡ some q =
              ground (arith, ap (lookup k) r.current_clients, read) in
            inr (
              old,
              elim (Bool-cases (q == p)) [
                | inl same ↦ absurd (unused k (old ∙ ap some ((==_iff q p).0 same)))
                | inr ne ↦ ne
              ],
            )
      ]

  IsPlaced-readmitted : (q : ℕ) → ((q ≡ p) ⊎ (((q == p) ≡ false) × IsPlaced q s)) → IsPlaced q t
  IsPlaced-readmitted q (inl e) = rw e (record {
    stationed =
        rw (r.heap, in_range-length (s.heap p).curr_station t.station_list s.station_list r.length)
          station;
    listed = λ y.
        rw (r.heap, in_range-length y t.station_list s.station_list r.length)
          (ground (
            arith,
            r.counts p y,
            unlisted y,
            int_eq_iff (s.heap p).curr_station y,
            ap (λ w. in_range w s.station_list) {x = (s.heap p).curr_station} {y = y},
          ));
  })
  IsPlaced-readmitted q (inr (ne, at)) = record {
    stationed =
        rw (r.heap, in_range-length (s.heap q).curr_station t.station_list s.station_list r.length)
          at.stationed;
    listed = λ y.
        rw (r.heap, in_range-length y t.station_list s.station_list r.length)
          (ground (arith, r.counts q y, at.listed y));
  }

  remained :
      (k : Text) (q : ℕ) → lookup k s.current_clients ≡ some q → lookup k t.current_clients ≡ some q
  remained k q f = ground (
    arith,
    ap (lookup k) r.current_clients,
    lookup-put key k p s.current_clients,
    text_eq_iff key k,
    ap (λ j. lookup j s.current_clients) {x = key} {y = k},
    free,
  )

  pub IsConsistent-Readmitted : IsConsistent t
  IsConsistent-Readmitted = record {
    allocated = λ k q e.
        rw r.next
          (elim (came k q e) [ inl (a, b) ↦ rw b allocated | inr (old, ne) ↦ h.allocated k q old ]);
    unaliased = λ j k q e f. elim (came j q e) [
      | inl (a, b) ↦ elim (came k q f) [
        | inl (a', b') ↦ sym a ∙ a'
        | inr (old', ne') ↦ absurd (ground arith)
      ]
      | inr (old, ne) ↦ elim (came k q f) [
        | inl (a', b') ↦ absurd (ground arith)
        | inr (old', ne') ↦ h.unaliased j k q old old'
      ]
    ];
    placed = λ k q e. elim (came k q e) [
      | inl (a, b) ↦ IsPlaced-readmitted q (inl b)
      | inr (old, ne) ↦ IsPlaced-readmitted q (inr (ne, h.placed k q old))
    ];
    registered = λ q y n. elim (Bool-cases (q == p)) [
      | inl same ↦ (
        key,
        ground (
          arith,
          ap (lookup key) r.current_clients,
          lookup-put key key p s.current_clients,
          text_eq_refl key,
          (==_iff q p).0 same,
        ),
      )
      | inr ne ↦ let (k, f) = h.registered q y (ground (arith, r.counts q y)) in (k, remained k q f)
    ];
    open_chan = λ k q e. elim (came k q e) [
      | inl (a, b) ↦ rw (r.heap, b) open_chan
      | inr (old, ne) ↦ rw r.heap (h.open_chan k q old)
    ];
  }
