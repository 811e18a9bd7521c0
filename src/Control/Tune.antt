-- ===== src/Control/Tune.antt =====
-- `SetStation` is atomic over any replicator.
use snowcast.Prelude.{
  ℕ, ◌≡◌, ◌⊎◌, refl, inl, inr, Text, pos, Bool, true, false, [], ◌∷◌, if◌then◌else◌, Option, none,
  some, is_some, Option-cases, Bool-cases, length, ltb,
}
use snowcast.Run.{Run, done, panic, Ends, ends, Ends-bind, Ends-done, and_then, pure}
use snowcast.Protocol.{Error, announce, stream_closed}
use snowcast.State.Store.{State, lookup}
use snowcast.State.Apply.{apply_set_station, rollback_set_station, get_client}
use snowcast.State.Effects.{name_at}
use snowcast.State.Invariant.{IsConsistent}
use snowcast.State.Roster.{roster, assign}
use snowcast.State.Retune.{move_then_rollback}
use snowcast.Control.Replicator.{Replicator, IsReplicator}
use snowcast.Control.Handlers.{
  key_of, entry_of, error_of, set_station_op, song_name, announced, StationReply,
  handle_set_station, set_station_at_client,
}
use snowcast.Control.Outcome.{Outcome, Settled-Ends}

-- The name was sent if the stream works, and the call goes on; where the stream does not, it ends.
abbrev IsAnnounced : Bool → Text → StationReply → Type 0
IsAnnounced works name reply =
    (reply.sent ≡ (if works then announce name ∷ [] else []))
    × (reply.status ≡ (if works then none else some stream_closed))

announced-IsAnnounced :
    (works : Bool) (name : Text) → IsAnnounced works name (announced works name none)
announced-IsAnnounced true name = (refl, refl)
announced-IsAnnounced false name = (refl, refl)

module _ {S : Type 0} (repl : Replicator S) where
  open repl use {mem, replicate_and_wait}

  abbrev IsTuned : (station_num udp_port : ℕ) → State → State → Type 0
  IsTuned n udp_port s t =
      IsConsistent t × (roster t ≡ assign (roster s) (key_of udp_port) (some (pos n)))

  abbrev IsSame : State → State → Type 0
  IsSame s t = IsConsistent t × (roster t ≡ roster s)

  -- What a reply says: the client is at the station, whose name was sent if the stream works, and
  -- nobody else moved; or there is an error and nothing changed for any client.
  abbrev pub SetStationDone : Bool → (station_num udp_port : ℕ) → S → StationReply → S → Type 0
  SetStationDone works n udp_port w reply w' =
      ((name : Text) × (name_at (mem w).station_list (pos n) ≡ some name)
        × IsAnnounced works name reply
        × IsTuned n udp_port (mem w) (mem w'))
      ⊎ ((is_some reply.status ≡ true) × IsSame (mem w) (mem w'))

  module _ (law : IsReplicator repl) (works : Bool) (n udp_port : ℕ) (w : S)
      (h : IsConsistent (mem w)) where
    answered :
        (name : Text) (q : Run S (Option Error))
        → name_at (mem w).station_list (pos n) ≡ some name
        → Ends (Outcome repl (IsTuned n udp_port (mem w)) (IsSame (mem w))) q
        → Ends (SetStationDone works n udp_port w) (and_then q (λ e. pure (announced works name e)))
    answered name (done none v) here (ends tuned) =
        ends (inl (name, here, announced-IsAnnounced works name, tuned))
    answered name (done (some x) v) here (ends same) = ends (inr (refl, same))
    answered name (panic v) here e = elim e [ ]

    module _ (client : ℕ) (found : lookup (key_of udp_port) (mem w).current_clients ≡ some client)
        (within : ltb n (length (mem w).station_list) ≡ true) where
      named : name_at (mem w).station_list (pos n) ≡ some (song_name udp_port n (mem w))
      named =
          let (r, t, ran, (fine, name, tuned, back)) =
            Ends-done
              (move_then_rollback (key_of udp_port) client (mem w) h found (pos n) within) in
          rw (ran, song_name) name

      known_client :
          Ends
            (SetStationDone works n udp_port w)
            (set_station_at_client repl works n udp_port client w)
      unfolding set_station_at_client
      known_client =
          let s = mem w in
          let previous = (s.heap client).curr_station in
          answered (song_name udp_port n s)
            (replicate_and_wait (entry_of (set_station_op udp_port n previous))
              (error_of (apply_set_station (key_of udp_port) (pos n)))
              (rollback_set_station (key_of udp_port) previous) w)
            named
            (Settled-Ends repl (IsTuned n udp_port s) (IsSame s)
              (error_of (apply_set_station (key_of udp_port) (pos n)))
              (rollback_set_station (key_of udp_port) previous) w
              (Ends-bind (move_then_rollback (key_of udp_port) client s h found (pos n) within)
                λ r t m. ends (m.0, m.2, m.3))
              (h, refl) _ (law.settled _ _ _ w))

    -- Over any replicator and a consistent state, SetStation up to its loop returns without a
    -- panic: either the client is now at the station that was asked for, which exists and whose
    -- name was sent if the stream works, where otherwise the stream's error is returned, and nobody
    -- else moved; or an error is returned and no client changed. The invariant holds after both.
    pub handle_set_station-Done :
        Ends (SetStationDone works n udp_port w) (handle_set_station repl works n udp_port w)
    unfolding handle_set_station get_client
    handle_set_station-Done = elim (Bool-cases (ltb n (length (mem w).station_list))) [
      | inr beyond ↦ rw (beyond, handle_set_station) (ends (inr (refl, (h, refl))))
      | inl within ↦ elim (Option-cases (lookup (key_of udp_port) (mem w).current_clients)) [
        | inl free ↦ rw (within, free, handle_set_station) (ends (inr (refl, (h, refl))))
        | inr (client, found) ↦
            rw (within, found, handle_set_station) (known_client client found within)
      ]
    ]
