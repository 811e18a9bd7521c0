-- ===== src/State/Retune.antt =====
-- `ApplySetStation` and then `RollbackSetStation`, as the clients see them.
use snowcast.Prelude.{ℕ, ◌≡◌, ap, ◌∙◌, inr, Text, ℤ, true, none, some}
use snowcast.Run.{Ends, Ends-mono}
use snowcast.State.Store.{State, lookup, in_range}
use snowcast.State.Apply.{apply_set_station, rollback_set_station}
use snowcast.State.Effects.{name_at, in_range-length}
use snowcast.State.Invariant.{IsConsistent}
use snowcast.State.Moves.{
  Moved, IsStation, apply_set_station-Moved, rollback_set_station-Moved, IsConsistent-Moved,
  IsPlaced-after,
}
use snowcast.State.Roster.{roster, assign, roster-Moved}
use snowcast.State.Reconnect.{roster-back}

module _ (key : Text) (p : ℕ) (s : State) (h : IsConsistent s)
    (found : lookup key s.current_clients ≡ some p) (z : ℤ)
    (within : in_range z s.station_list ≡ true) where
  module _ (t : State) (m : Moved p z s t) where
    consistent : IsConsistent t
    consistent = IsConsistent-Moved m key found (inr within) h

    still : lookup key t.current_clients ≡ some p
    still = rw m.current_clients found

    station : IsStation ((s.heap p).curr_station) t
    station =
        rw (in_range-length ((s.heap p).curr_station) t.station_list s.station_list m.length)
          ((h.placed key p found).stationed)

    moved_back :
        Ends
          (λ _ u. IsConsistent u × (roster u ≡ roster s))
          (rollback_set_station key ((s.heap p).curr_station) t)
    moved_back =
        Ends-mono
          (rollback_set_station-Moved key (IsPlaced-after m (inr within) p (h.placed key p found))
            still ((s.heap p).curr_station))
          λ _ u back. (
            IsConsistent-Moved back key still station consistent,
            roster-Moved key consistent still back
                ∙ ap (λ x. assign x key (some ((s.heap p).curr_station)))
                    (roster-Moved key h found m)
                ∙ roster-back s key (some z) found,
          )

  pub move_then_rollback :
      Ends
        (λ r t.
          (r.1 ≡ none)
          × (name_at s.station_list z ≡ some (r.0))
          × (IsConsistent t × (roster t ≡ assign (roster s) key (some z)))
          × Ends
              (λ _ u. IsConsistent u × (roster u ≡ roster s))
              (rollback_set_station key ((s.heap p).curr_station) t))
        (apply_set_station key z s)
  move_then_rollback =
      Ends-mono (apply_set_station-Moved key (h.placed key p found) found z within) λ r t m.
        (m.1, m.2, (consistent t (m.0), roster-Moved key h found (m.0)), moved_back t (m.0))
