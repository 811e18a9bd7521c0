-- ===== src/State/Rollback.antt =====
-- The rollbacks of internal/state undo their operations, up to the order within a station's list.
use snowcast.Prelude.{
  ℕ, ◌≡◌, ap, fun_ext, inr, Text, ℤ, int_eq_iff, true, some, arith, ◌==◌, ==_iff, ==_refl,
  Bool-cases, inl, ◌∙◌,
}
use snowcast.Run.{Ends, Ends-bind, Ends-mono, and_then}
use snowcast.State.Store.{State, lookup, in_range}
use snowcast.State.Apply.{apply_set_station, rollback_set_station}
use snowcast.State.Effects.{IsPlaced, count_at, name_at, in_range-length}
use snowcast.State.Invariant.{IsConsistent}
use snowcast.State.Moves.{
  Moved, IsPlaced-after, apply_set_station-Moved, rollback_set_station-Moved,
}

-- The two states have the same clients at the same stations, in some order.
pub record SameSessions (s t : State) : Type 0 where
  pub current_clients : t.current_clients ≡ s.current_clients
  pub heap : t.heap ≡ s.heap
  pub names : (y : ℤ) → name_at t.station_list y ≡ name_at s.station_list y
  pub counts : (q : ℕ) (y : ℤ) → count_at t q y ≡ count_at s q y

module _ {p : ℕ} {z : ℤ} {s t u : State} (h : IsPlaced p s) (there : Moved p z s t)
    (back : Moved p (s.heap p).curr_station t u) where
  heap-back : u.heap ≡ s.heap
  heap-back = fun_ext λ q.
      rw (back.heap, there.heap)
        (elim (Bool-cases (q == p)) [
          | inl same ↦ rw ((==_iff q p).0 same, ==_refl p)
          | inr other ↦ ground arith
        ])

  SameSessions-back : SameSessions s u
  SameSessions-back = record {
    current_clients = back.current_clients ∙ there.current_clients;
    heap = heap-back;
    names = λ y. back.names y ∙ there.names y;
    counts = λ q y.
        let z0 = (s.heap p).curr_station in
        ground (
          arith,
          back.counts q y,
          there.counts q y,
          h.listed y,
          in_range-length z0 t.station_list s.station_list there.length,
          int_eq_iff z0 y,
          ap (λ w. in_range w s.station_list) {x = z0} {y = y},
        );
  }

module _ {s : State} (key : Text) {p : ℕ} (h : IsConsistent s)
    (found : lookup key s.current_clients ≡ some p) where
  -- Moving a registered client to an existing station and rolling back to the station that it had
  -- leaves the clients, their records, the stations' names and who stands in which list as they
  -- were.
  pub rollback_apply_set_station :
      (z : ℤ)
      → in_range z s.station_list ≡ true
      → Ends
          (λ _ t. SameSessions s t)
          (and_then
            (apply_set_station key z s)
            (λ _. rollback_set_station key (s.heap p).curr_station))
  rollback_apply_set_station z within =
      Ends-bind (apply_set_station-Moved key (h.placed key p found) found z within) λ r t m.
        Ends-mono
          (rollback_set_station-Moved key (IsPlaced-after m.0 (inr within) p (h.placed key p found))
            (rw m.0.current_clients found) (s.heap p).curr_station)
          λ _ u back. SameSessions-back (h.placed key p found) m.0 back
