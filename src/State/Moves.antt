-- ===== src/State/Moves.antt =====
-- `ApplySetStation` and `RollbackSetStation`: what they change, and that the invariant survives.
use snowcast.Prelude.{
  ℕ, ◌≡◌, refl, sym, ap, ==_refl, ==_iff, ◌⊎◌, ◌∙◌, inl, inr, Text, ℤ, minus_one, int_eq_iff,
  Bool-cases, true, false, none, some, arith, length, ◌==◌,
}
use snowcast.Run.{Ends, ends, Ends-bind, Ends-mono}
use snowcast.State.Store.{State, lookup, update, in_range, set_curr_station}
use snowcast.State.Apply.{apply_set_station, rollback_set_station}
use snowcast.State.Effects.{
  IsPlaced, Relisted, count_at, without, with_client, name_at, in_range-length, remove-Relisted,
  append-Relisted, append_in_range-Relisted,
}
use snowcast.State.Invariant.{IsConsistent}

-- The client at `p` left the lists for the station `z` (for none of them, if `z` is no station).
pub record Moved (p : ℕ) (z : ℤ) (s t : State) : Type 0 where
  pub next : t.next ≡ s.next
  pub current_clients : t.current_clients ≡ s.current_clients
  pub length : length t.station_list ≡ length s.station_list
  pub names : (y : ℤ) → name_at t.station_list y ≡ name_at s.station_list y
  pub heap : t.heap ≡ update s.heap p (record (s.heap p) { curr_station = z })
  pub counts :
      (q : ℕ) (y : ℤ) → count_at t q y ≡ with_client p z s.station_list (without p (count_at s)) q y

module _ {p : ℕ} {z : ℤ} {s t u : State} where
  Moved-append :
      Relisted (without p (count_at s)) s t
      → Relisted
          (with_client p z
            (set_curr_station p z t).station_list
            (count_at (set_curr_station p z t)))
          (set_curr_station p z t)
          u
      → Moved p z s u
  Moved-append a b = record {
    next = b.next ∙ a.next;
    current_clients = b.current_clients ∙ a.current_clients;
    length = b.length ∙ a.length;
    names = λ y. b.names y ∙ a.names y;
    heap = b.heap ∙ ap (λ h. update h p (record (h p) { curr_station = z })) a.heap;
    counts = λ q y. ground (
      arith,
      b.counts q y,
      a.counts q y,
      in_range-length z t.station_list s.station_list a.length,
    );
  }

  Moved-set :
      Relisted (without p (count_at s)) s t
      → Relisted (with_client p z t.station_list (count_at t)) t u
      → Moved p z s (set_curr_station p z u)
  Moved-set a b = record {
    next = b.next ∙ a.next;
    current_clients = b.current_clients ∙ a.current_clients;
    length = b.length ∙ a.length;
    names = λ y. b.names y ∙ a.names y;
    heap = ap (λ h. update h p (record (h p) { curr_station = z })) (b.heap ∙ a.heap);
    counts = λ q y. ground (
      arith,
      b.counts q y,
      a.counts q y,
      in_range-length z t.station_list s.station_list a.length,
    );
  }

module _ {s : State} (key : Text) {p : ℕ} (h : IsPlaced p s)
    (found : lookup key s.current_clients ≡ some p) where
  -- A registered client is moved to a station that exists, and its name is returned.
  pub apply_set_station-Moved :
      (z : ℤ)
      → in_range z s.station_list ≡ true
      → Ends
          (λ r t. Moved p z s t × (r.1 ≡ none) × (name_at s.station_list z ≡ some r.0))
          (apply_set_station key z s)
  unfolding apply_set_station
  apply_set_station-Moved z within =
      rw (found, apply_set_station)
        (Ends-bind (remove-Relisted p s h) λ _ t a.
          Ends-bind
            (append-Relisted z p (set_curr_station p z t)
              (in_range-length z t.station_list s.station_list a.length ∙ within))
            λ name u b. ends (Moved-append a b.0, refl, sym (a.names z) ∙ b.1))

  pub rollback_set_station-Moved :
      (z : ℤ) → Ends (λ _ t. Moved p z s t) (rollback_set_station key z s)
  unfolding rollback_set_station
  rollback_set_station-Moved z =
      rw (found, rollback_set_station)
        (Ends-bind (remove-Relisted p s h)
          λ _ t a. Ends-bind (append_in_range-Relisted z p t) λ _ u b. ends (Moved-set a b))

-- The station that a client can be given: none, or one that exists.
abbrev pub IsStation : ℤ → State → Type 0
IsStation z s = (z ≡ minus_one) ⊎ (in_range z s.station_list ≡ true)

module _ {p : ℕ} {z : ℤ} {s t : State} (m : Moved p z s t) where
  pub curr_station_self : (t.heap p).curr_station ≡ z
  curr_station_self = rw (m.heap, ==_refl p)

  heap-other : (q : ℕ) → (q == p) ≡ false → t.heap q ≡ s.heap q
  heap-other q other = rw m.heap (ground arith)

  IsPlaced-self : IsStation z s → IsPlaced p t
  IsPlaced-self d = record {
    stationed =
        rw curr_station_self (rw (in_range-length z t.station_list s.station_list m.length) d);
    listed = λ y.
        rw (curr_station_self, in_range-length y t.station_list s.station_list m.length)
          (ground (arith, m.counts p y, int_eq_iff z y, ap (λ w. in_range w s.station_list)));
  }

  IsPlaced-other : (q : ℕ) → (q == p) ≡ false → IsPlaced q s → IsPlaced q t
  IsPlaced-other q other h = record {
    stationed =
        rw
          (
            heap-other q other,
            in_range-length (s.heap q).curr_station t.station_list s.station_list m.length,
          )
          h.stationed;
    listed = λ y.
        rw (heap-other q other, in_range-length y t.station_list s.station_list m.length)
          (ground (arith, m.counts q y, h.listed y));
  }

  pub was :
      (k : Text) (q : ℕ) → lookup k t.current_clients ≡ some q → lookup k s.current_clients ≡ some q
  was k q e = rw m.current_clients at e

  chan-same : (q : ℕ) → (t.heap q).event_chan ≡ (s.heap q).event_chan
  chan-same q = rw m.heap (ground (arith, ap s.heap {x = q} {y = p}))

  pub IsPlaced-after : IsStation z s → (q : ℕ) → IsPlaced q s → IsPlaced q t
  IsPlaced-after d q h = elim (Bool-cases (q == p)) [
    | inl same ↦ rw ((==_iff q p).0 same) (IsPlaced-self d)
    | inr other ↦ IsPlaced-other q other h
  ]

  -- Moving a registered client keeps the invariant.
  pub IsConsistent-Moved :
      (key : Text)
      → lookup key s.current_clients ≡ some p
      → IsStation z s
      → IsConsistent s
      → IsConsistent t
  IsConsistent-Moved key found d h = record {
    allocated = λ k q e. rw m.next (h.allocated k q (was k q e));
    unaliased = λ j k q e f. h.unaliased j k q (was j q e) (was k q f);
    placed = λ k q e. IsPlaced-after d q (h.placed k q (was k q e));
    registered = rw m.current_clients λ q y some_there. elim (Bool-cases (q == p)) [
      | inl same ↦ (key, rw ((==_iff q p).0 same) found)
      | inr other ↦ h.registered q y (ground (arith, m.counts q y))
    ];
    open_chan = λ k q e. rw (chan-same q) (h.open_chan k q (was k q e));
  }

module _ {s : State} (key : Text) {p : ℕ} (h : IsConsistent s)
    (found : lookup key s.current_clients ≡ some p) where
  pub apply_set_station-IsConsistent :
      (z : ℤ)
      → in_range z s.station_list ≡ true
      → Ends (λ r t. (r.1 ≡ none) × IsConsistent t) (apply_set_station key z s)
  apply_set_station-IsConsistent z within =
      Ends-mono (apply_set_station-Moved key (h.placed key p found) found z within)
        λ r t m. (m.1, IsConsistent-Moved m.0 key found (inr within) h)
