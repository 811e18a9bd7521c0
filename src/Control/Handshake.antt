-- ===== src/Control/Handshake.antt =====
-- `Handshake` is atomic over any replicator.
use mathlib.Core.Path.{subst}
use snowcast.Prelude.{
  arith, ℕ, ◌%◌, ◌^◌, ◌≡◌, refl, sym, ap, ◌∙◌, inl, inr, Text, minus_one, Option, none, some,
  Option-cases,
}
use snowcast.Run.{
  Run, done, panic, Ends, ends, and_then, pure, Result, ok, err, done-state, done-value,
  done-ne-panic,
}
use snowcast.Protocol.{Error}
use snowcast.State.Store.{State, client_key, lookup}
use snowcast.State.Apply.{apply_handshake, rollback_handshake, get_client}
use snowcast.State.Invariant.{IsConsistent}
use snowcast.State.Roster.{roster, roster-registered, assign}
use snowcast.State.Sessions.{
  new_client, registered_state, registered-IsConsistent, apply_handshake-new, delete-put,
}
use snowcast.State.Allocate.{allocate, IsConsistent-allocate, roster-allocate}
use snowcast.Control.Replicator.{Replicator, IsReplicator, Settled}
use snowcast.Control.Handlers.{
  client_ip, key_of, entry_of, handshake_op, error_of, answer, handle_handshake,
}

-- A handshake rolled back leaves the state as it was, but for a client record that nobody refers to.
pub rolled_back_state :
    (ip : Text) (udp_port : ℕ) (s t : State)
    → lookup (client_key ip udp_port) s.current_clients ≡ none
    → rollback_handshake ip udp_port (registered_state ip udp_port s) ≡ done tt t
    → t ≡ allocate (new_client ip udp_port) s
unfolding rollback_handshake
rolled_back_state ip udp_port s t free e =
    sym (done-state e)
    ∙ ap (λ m. record (allocate (new_client ip udp_port) s) { current_clients = m })
        (delete-put (client_key ip udp_port) s.next s.current_clients free)

rollback_handshake-total :
    (ip : Text) (udp_port : ℕ) (m m' : State) → rollback_handshake ip udp_port m ≡ panic m' → ⊥
unfolding rollback_handshake
rollback_handshake-total ip udp_port m m' e = done-ne-panic e

module _ {S : Type 0} (repl : Replicator S) where
  open repl use {mem, replicate_and_wait}

  -- What an answer says: registered on no station, or nothing changed for any client.
  abbrev pub HandshakeDone : (num_stations udp_port : ℕ) → S → Result Error ℕ → S → Type 0
  HandshakeDone num_stations udp_port w (ok n) w' =
      (n ≡ num_stations % 2 ^ 32)
      × IsConsistent (mem w')
      × (roster (mem w) (key_of udp_port) ≡ none)
      × (roster (mem w') ≡ assign (roster (mem w)) (key_of udp_port) (some minus_one))
  HandshakeDone num_stations udp_port w (err x) w' =
      IsConsistent (mem w') × (roster (mem w') ≡ roster (mem w))

  module _ (law : IsReplicator repl) (num_stations udp_port : ℕ) (w : S)
      (h : IsConsistent (mem w)) where
    unregistered :
        lookup (key_of udp_port) (mem w).current_clients ≡ none
        → roster (mem w) (key_of udp_port) ≡ none
    unfolding roster
    unregistered free = rw free refl

    Settled-by :
        (q : Run S (Option Error))
        → lookup (key_of udp_port) (mem w).current_clients ≡ none
        → error_of (apply_handshake client_ip udp_port) (mem w)
          ≡ done none (registered_state client_ip udp_port (mem w))
        → Settled repl
            (error_of (apply_handshake client_ip udp_port))
            (rollback_handshake client_ip udp_port)
            w
            q
        → Ends
            (HandshakeDone num_stations udp_port w)
            (and_then q (λ e. pure (answer (num_stations % 2 ^ 32) e)))
    Settled-by (done none w') free a s =
        let e = done-state (sym a ∙ s) in
        let reg = registered-IsConsistent client_ip udp_port (mem w) h free in
        let seen = roster-registered client_ip udp_port h in
        ends (refl, subst IsConsistent e reg, unregistered free, ap roster (sym e) ∙ seen)
    Settled-by (done (some x) w') free a (inl same) = ends (rw same h, ap roster same)
    Settled-by (done (some x) w') free a (inr (inl (y, refused))) =
        absurd (ground (arith, done-value (sym a ∙ refused)))
    Settled-by (done (some x) w') free a (inr (inr (y, m, ran, undone))) =
        let e = done-state (sym a ∙ ran) in
        let back =
          rolled_back_state client_ip udp_port (mem w) (mem w') free
            (ap (rollback_handshake client_ip udp_port) e ∙ undone) in
        ends (
          subst IsConsistent (sym back) (IsConsistent-allocate _ (mem w) h),
          ap roster back ∙ roster-allocate _ (mem w) h,
        )
    Settled-by (panic w') free a (inl (m, ran)) = absurd (done-ne-panic (sym a ∙ ran))
    Settled-by (panic w') free a (inr (y, m, m', ran, undone)) =
        absurd (rollback_handshake-total client_ip udp_port m m' undone)

    -- Over any replicator and a consistent state, Handshake returns: a success means that the
    -- client was unknown and is now registered on no station, and nobody else moved; an error means
    -- that no client changed. The invariant holds after both.
    pub handle_handshake-Done :
        Ends (HandshakeDone num_stations udp_port w) (handle_handshake repl num_stations udp_port w)
    unfolding handle_handshake get_client
    handle_handshake-Done = elim (Option-cases (lookup (key_of udp_port) (mem w).current_clients)) [
      | inl free ↦
          rw (free, handle_handshake)
            (Settled-by
              (replicate_and_wait (entry_of (handshake_op udp_port))
                (error_of (apply_handshake client_ip udp_port))
                (rollback_handshake client_ip udp_port) w)
              free (rw (apply_handshake-new client_ip udp_port (mem w) free)) (law.settled _ _ _ w))
      | inr (p, taken) ↦ rw (taken, handle_handshake) (ends (h, refl))
    ]
