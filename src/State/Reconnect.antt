-- ===== src/State/Reconnect.antt =====
-- `ApplyDisconnect` and then `RollbackDisconnect` with the copy that the handler saved.
use snowcast.Prelude.{
  ℕ, ◌≡◌, ◌≢◌, refl, ap, ◌∙◌, fun_ext, Text, ℤ, Option, none, some, false, arith, ◌==◌, text_eq_iff,
  text_eq_refl, ==_refl,
}
use snowcast.Run.{Ends, Ends-bind, Ends-mono, and_then}
use snowcast.State.Store.{State, ClientInfo, lookup, fresh_chan}
use snowcast.State.Apply.{apply_disconnect, rollback_disconnect}
use snowcast.State.Maps.{lookup-put, lookup-delete}
use snowcast.State.Effects.{in_range-length}
use snowcast.State.Moves.{IsStation}
use snowcast.State.Invariant.{IsConsistent}
use snowcast.State.Disconnect.{
  Departed, apply_disconnect-Departed, IsConsistent-Departed, stayed, heap-other,
}
use snowcast.State.Readmit.{Readmitted, rollback_disconnect-Readmitted, IsConsistent-Readmitted}
use snowcast.State.Roster.{roster, assign, roster-Departed}
use snowcast.State.Allocate.{allocate, IsConsistent-allocate, roster-allocate}

-- The copy of a client that the handler keeps: the same client, with a channel of its own.
abbrev pub saved_client : ClientInfo → ClientInfo
saved_client c = record c { event_chan = fresh_chan }

roster-Readmitted :
    {s t : State} {p : ℕ} (key : Text)
    → Readmitted key p s t
    → roster t ≡ assign (roster s) key (some ((s.heap p).curr_station))
unfolding roster
roster-Readmitted {s} {t} {p} key r =
    fun_ext
      λ k. rw (r.current_clients, r.heap) (ground (arith, lookup-put key k p s.current_clients))

-- A client that is given its own station again, whatever it had in between.
pub roster-back :
    (s : State) {p : ℕ} (key : Text) (c : Option ℤ)
    → lookup key s.current_clients ≡ some p
    → assign (assign (roster s) key c) key (some ((s.heap p).curr_station)) ≡ roster s
unfolding roster
roster-back s {p} key c found =
    fun_ext
      λ k. ground (arith, text_eq_iff key k, ap (λ j. lookup j s.current_clients) {x = key} {y = k})

module _ (key : Text) (p : ℕ) (s : State) (h : IsConsistent s)
    (found : lookup key s.current_clients ≡ some p) where
  with_copy : State
  with_copy = allocate (saved_client (s.heap p)) s

  consistent_copy : IsConsistent with_copy
  unfolding with_copy
  consistent_copy = IsConsistent-allocate (saved_client (s.heap p)) s h

  apart : (s.next == p) ≡ false
  apart = ground (arith, h.allocated key p found)

  module _ (t : State) (d : Departed key p (allocate (saved_client (s.heap p)) s) t) where
    found_copy : lookup key with_copy.current_clients ≡ some p
    unfolding with_copy
    found_copy = found

    copy : t.heap s.next ≡ saved_client (s.heap p)
    unfolding consistent_copy with_copy
    copy = heap-other d consistent_copy found s.next apart ∙ rw (==_refl s.next) refl

    free : lookup key t.current_clients ≡ none
    free =
        ap (lookup key) d.current_clients
        ∙ lookup-delete key key s.current_clients
        ∙ rw (text_eq_refl key) refl

    unused : (k : Text) → lookup k t.current_clients ≢ some s.next
    unfolding consistent_copy with_copy
    unused k e =
        let old = stayed d consistent_copy found k s.next e in
        omega (arith, h.allocated k s.next old.0)

    station : IsStation ((t.heap s.next).curr_station) t
    station =
        rw (copy, in_range-length ((s.heap p).curr_station) t.station_list s.station_list d.length)
          ((h.placed key p found).stationed)

    readmitted : (u : State) → Readmitted key s.next t u → IsConsistent u × (roster u ≡ roster s)
    unfolding consistent_copy with_copy
    readmitted u r = (
      IsConsistent-Readmitted r (IsConsistent-Departed d consistent_copy found) free
          (omega (arith, d.next)) unused station (rw copy refl),
      roster-Readmitted key r
          ∙ (λ i.
              assign (roster-Departed key consistent_copy found d i) key
                (some ((copy i).curr_station)))
          ∙ ap (λ x. assign (assign x key none) key (some ((s.heap p).curr_station)))
              (roster-allocate (saved_client (s.heap p)) s h)
          ∙ roster-back s key none found,
    )

  -- The two steps, one at a time.
  pub disconnect_then_rollback :
      Ends
        (λ err t.
          (err ≡ none)
          × (IsConsistent t × (roster t ≡ assign (roster s) key none))
          × Ends (λ _ u. IsConsistent u × (roster u ≡ roster s)) (rollback_disconnect key s.next t))
        (apply_disconnect key (allocate (saved_client (s.heap p)) s))
  unfolding consistent_copy with_copy
  disconnect_then_rollback =
      Ends-mono (apply_disconnect-Departed key consistent_copy found) λ err t d. (
        d.0,
        (
          IsConsistent-Departed (d.1) consistent_copy found,
          roster-Departed key consistent_copy found (d.1)
              ∙ ap (λ x. assign x key none) (roster-allocate (saved_client (s.heap p)) s h),
        ),
        Ends-mono (rollback_disconnect-Readmitted key s.next t) λ u v r. readmitted t (d.1) v r,
      )

  -- Disconnecting a registered client and rolling back with the copy that the handler saved puts
  -- every client back at its station and keeps the invariant, without a panic.
  pub rollback_apply_disconnect :
      Ends
        (λ _ t. IsConsistent t × (roster t ≡ roster s))
        (and_then
          (apply_disconnect key (allocate (saved_client (s.heap p)) s))
          (λ _. rollback_disconnect key s.next))
  unfolding consistent_copy with_copy
  rollback_apply_disconnect =
      Ends-bind (apply_disconnect-Departed key consistent_copy found) λ err t d.
        Ends-mono (rollback_disconnect-Readmitted key s.next t) λ u v r. readmitted t (d.1) v r
