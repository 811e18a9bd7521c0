-- ===== src/Failover/Overtaken.antt =====
-- A request of another client that runs between the check of a Handshake and its `ReplicateAndWait`.
use mathlib.Core.Path.{subst}
use snowcast.Prelude.{
  ℕ, ◌≡◌, refl, sym, ap, ◌∙◌, inl, inr, Text, Bool, true, false, Option, none, some, is_some,
  Option-cases, arith, text_eq,
}
use snowcast.Run.{done, Go, pure, ◌>>=◌, Result, ok, err, Ends, ends, Ends-bind, Ends-done}
use snowcast.Protocol.{Error, client_already_connected}
use snowcast.State.Store.{State, lookup}
use snowcast.State.Apply.{get_client}
use snowcast.State.Invariant.{IsConsistent}
use snowcast.State.Roster.{Roster, roster, assign}
use snowcast.Control.Replicator.{Replicator, IsReplicator}
use snowcast.Control.Handlers.{StationReply, key_of, handshake_free, handle_handshake}
use snowcast.Control.Handshake.{HandshakeDone, handle_handshake-Done}
use snowcast.Control.Leave.{DisconnectDone, handle_disconnect-Done}
use snowcast.Control.Tune.{SetStationDone, handle_set_station-Done}
use snowcast.Failover.Requests.{Call, join, tune, leave, perform_on}

abbrev pub port_of : Call → ℕ
port_of (join num_stations udp_port) = udp_port
port_of (tune works station_num udp_port) = udp_port
port_of (leave udp_port) = udp_port

module _ {S : Type 0} (repl : Replicator S) where
  open repl use {mem}

  -- `Handshake` with its check in the state before the other request, and the rest behind it.
  unfoldable pub overtaken_handshake :
      (between : Go S Bool) → (num_stations udp_port : ℕ) → Go S (Bool × Result Error ℕ)
  unfolding get_client
  overtaken_handshake between num_stations udp_port w =
      elim (get_client (key_of udp_port) (mem w)) [
        | some client ↦
            (between >>= λ told. pure (told, err (client_already_connected (key_of udp_port)))) w
        | none ↦
            (between >>= λ told. handshake_free repl num_stations udp_port >>= λ r. pure (told, r))
              w
      ]

  -- The other request, and then the whole `Handshake`.
  abbrev pub handshake_behind :
      (between : Go S Bool) → (num_stations udp_port : ℕ) → Go S (Bool × Result Error ℕ)
  handshake_behind between num_stations udp_port =
      between >>= λ told. handle_handshake repl num_stations udp_port >>= λ r. pure (told, r)

  -- The client of `key` has what it had.
  abbrev IsLeft : Text → S → S → Type 0
  IsLeft key w v = roster (mem v) key ≡ roster (mem w) key

  assign-other :
      (r : Roster) (key other : Text) (z : Option _)
      → text_eq key other ≡ false
      → assign r key z other ≡ r other
  assign-other r key other z apart = rw apart refl

  module _ (law : IsReplicator repl) (other : Text) (w : S) (h : IsConsistent (mem w)) where
    join-IsLeft :
        (num_stations port : ℕ) (r : Result Error ℕ) (v : S)
        → text_eq (key_of port) other ≡ false
        → HandshakeDone repl num_stations port w r v
        → IsLeft other w v
    join-IsLeft n port (ok k) v apart d =
        ap (λ r. r other) d.3 ∙ assign-other (roster (mem w)) (key_of port) other _ apart
    join-IsLeft n port (err x) v apart d = ap (λ r. r other) d.1

    tune-IsLeft :
        (works : Bool) (num port : ℕ) (r : StationReply) (v : S)
        → text_eq (key_of port) other ≡ false
        → SetStationDone repl works num port w r v
        → IsLeft other w v
    tune-IsLeft works num port r v apart (inl (name, found, reply, tuned)) =
        ap (λ r. r other) tuned.1 ∙ assign-other (roster (mem w)) (key_of port) other _ apart
    tune-IsLeft works num port r v apart (inr (failed, same)) = ap (λ r. r other) same.1

    leave-IsLeft :
        (port : ℕ) (r : Bool × Option Error) (v : S)
        → text_eq (key_of port) other ≡ false
        → DisconnectDone repl port w r v
        → IsLeft other w v
    leave-IsLeft port (true, e) v apart d =
        ap (λ r. r other) d.1.1 ∙ assign-other (roster (mem w)) (key_of port) other _ apart
    leave-IsLeft port (false, e) v apart d = ap (λ r. r other) d.1

    perform_on-IsLeft :
        (c : Call)
        → text_eq (key_of (port_of c)) other ≡ false
        → Ends (λ told v. IsLeft other w v) (perform_on repl c w)
    perform_on-IsLeft (join n port) apart =
        Ends-bind (handle_handshake-Done repl law n port w h)
          λ r v d. ends (join-IsLeft n port r v apart d)
    perform_on-IsLeft (tune works num port) apart =
        Ends-bind (handle_set_station-Done repl law works num port w h)
          λ r v d. ends (tune-IsLeft works num port r v apart d)
    perform_on-IsLeft (leave port) apart =
        Ends-bind (handle_disconnect-Done repl law port w h)
          λ r v d. ends (leave-IsLeft port r v apart d)

  -- Being registered can be read off the view.
  registered-roster :
      (s : State) (key : Text) → is_some (lookup key s.current_clients) ≡ is_some (roster s key)
  unfolding roster
  registered-roster s key = elim (Option-cases (lookup key s.current_clients)) [
    | inl nobody ↦ rw nobody refl
    | inr (p, found) ↦ rw found refl
  ]

  still_registered :
      (key : Text) (w v : S)
      → IsLeft key w v
      → is_some (lookup key (mem v).current_clients) ≡ is_some (lookup key (mem w).current_clients)
  still_registered key w v left =
      registered-roster (mem v) key ∙ ap is_some left ∙ sym (registered-roster (mem w) key)

  behind_check :
      (num_stations port : ℕ) (told : Bool) (w v : S)
      → IsLeft (key_of port) w v
      → overtaken_handshake (λ s. done told v) num_stations port w
        ≡ handshake_behind (λ s. done told v) num_stations port w
  unfolding overtaken_handshake handle_handshake get_client
  behind_check n port told w v left =
      let same = still_registered (key_of port) w v left in
      elim (Option-cases (lookup (key_of port) (mem w).current_clients)) [
        | inl free ↦ elim (Option-cases (lookup (key_of port) (mem v).current_clients)) [
          | inl free' ↦ rw (free, free', overtaken_handshake, handle_handshake) refl
          | inr (p, taken) ↦ absurd (ground (arith, same, free, taken))
        ]
        | inr (p, taken) ↦ elim (Option-cases (lookup (key_of port) (mem v).current_clients)) [
          | inl free ↦ absurd (ground (arith, same, free, taken))
          | inr (q, taken') ↦ rw (taken, taken', overtaken_handshake, handle_handshake) refl
        ]
      ]

  module _ (law : IsReplicator repl) where
    -- Over any replicator and a consistent state, a request of another client that runs between the
    -- check of a Handshake and its ReplicateAndWait makes no difference: the answers and the state
    -- are those of that request followed by the whole Handshake.
    pub overtaken_handshake-sequential :
        (c : Call) (num_stations port : ℕ) (w : S)
        → IsConsistent (mem w)
        → text_eq (key_of (port_of c)) (key_of port) ≡ false
        → overtaken_handshake (perform_on repl c) num_stations port w
          ≡ handshake_behind (perform_on repl c) num_stations port w
    unfolding overtaken_handshake
    overtaken_handshake-sequential c n port w h apart =
        let (told, v, ran, left) = Ends-done (perform_on-IsLeft law (key_of port) w h c apart) in
        subst (λ q. overtaken_handshake (λ s. q) n port w ≡ handshake_behind (λ s. q) n port w)
          (sym ran) (behind_check n port told w v left)
