-- ===== src/Control/Leave.antt =====
-- `Disconnect` is atomic over any replicator.
use snowcast.Prelude.{ℕ, ◌≡◌, refl, inl, inr, Bool, true, false, Option, none, some, Option-cases}
use snowcast.Run.{Run, done, panic, Ends, ends, and_then, pure}
use snowcast.Protocol.{Error}
use snowcast.State.Store.{State, lookup}
use snowcast.State.Apply.{apply_disconnect, rollback_disconnect, get_client}
use snowcast.State.Invariant.{IsConsistent}
use snowcast.State.Roster.{roster, assign}
use snowcast.State.Allocate.{allocate, IsConsistent-allocate, roster-allocate}
use snowcast.State.Reconnect.{saved_client, disconnect_then_rollback}
use snowcast.Control.Replicator.{Replicator, IsReplicator}
use snowcast.Control.Handlers.{
  key_of, entry_of, disconnect_op, handle_disconnect, disconnect_client,
}
use snowcast.Control.Outcome.{Outcome, Settled-Ends}

module _ {S : Type 0} (repl : Replicator S) where
  open repl use {mem, with_mem, replicate_and_wait}

  abbrev IsGone : ℕ → State → State → Type 0
  IsGone udp_port s t = IsConsistent t × (roster t ≡ assign (roster s) (key_of udp_port) none)

  abbrev IsSame : State → State → Type 0
  IsSame s t = IsConsistent t × (roster t ≡ roster s)

  -- What an answer says: gone and nobody else moved, or nothing changed for any client.
  abbrev pub DisconnectDone : (udp_port : ℕ) → S → Bool × Option Error → S → Type 0
  DisconnectDone udp_port w (true, e) w' = (e ≡ none) × IsGone udp_port (mem w) (mem w')
  DisconnectDone udp_port w (false, e) w' = IsSame (mem w) (mem w')

  module _ (law : IsReplicator repl) (udp_port : ℕ) (w : S) (h : IsConsistent (mem w)) where
    answered :
        (q : Run S (Option Error))
        → Ends (Outcome repl (IsGone udp_port (mem w)) (IsSame (mem w))) q
        → Ends
            (DisconnectDone udp_port w)
            (and_then q (λ e. pure (elim e [ some x ↦ (false, some x) | none ↦ (true, none) ])))
    answered (done none v) (ends gone) = ends (refl, gone)
    answered (done (some x) v) (ends same) = ends same
    answered (panic v) e = elim e [ ]

    module _ (client : ℕ)
        (found : lookup (key_of udp_port) (mem w).current_clients ≡ some client) where
      known_client : Ends (DisconnectDone udp_port w) (disconnect_client repl udp_port client w)
      unfolding disconnect_client
      known_client =
          let s = mem w in
          let copied = with_mem (allocate (saved_client (s.heap client)) s) w in
          let there : mem copied ≡ allocate (saved_client (s.heap client)) s =
            law.mem-with_mem _ w in
          answered
            (replicate_and_wait (entry_of (disconnect_op udp_port))
              (apply_disconnect (key_of udp_port)) (rollback_disconnect (key_of udp_port) s.next)
              copied)
            (Settled-Ends repl (IsGone udp_port s) (IsSame s) (apply_disconnect (key_of udp_port))
              (rollback_disconnect (key_of udp_port) s.next) copied
              (rw there (disconnect_then_rollback (key_of udp_port) client s h found))
              (rw there (IsConsistent-allocate _ s h, roster-allocate _ s h)) _
              (law.settled _ _ _ copied))

    -- Over any replicator and a consistent state, Disconnect returns without a panic: with Success
    -- the client is gone, there is no error, and nobody else moved; without Success no client
    -- changed. The invariant holds after both.
    pub handle_disconnect-Done :
        Ends (DisconnectDone udp_port w) (handle_disconnect repl udp_port w)
    unfolding handle_disconnect get_client
    handle_disconnect-Done =
        elim (Option-cases (lookup (key_of udp_port) (mem w).current_clients)) [
          | inl free ↦ rw (free, handle_disconnect) (ends (h, refl))
          | inr (client, found) ↦ rw (found, handle_disconnect) (known_client client found)
        ]
