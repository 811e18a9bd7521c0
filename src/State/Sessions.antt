-- ===== src/State/Sessions.antt =====
-- `ApplyHandshake`, `ApplyDisconnect` and their rollbacks: what they change on every branch.
use snowcast.Prelude.{
  ℕ, ◌+◌, ◌≡◌, refl, sym, ap, inl, inr, ◌⊎◌, Text, minus_one, Bool-cases, Option-cases, false, none,
  some, [], ◌∷◌, arith, ◌==◌, ==_refl, text_eq, text_eq_iff, text_eq_refl,
}
use snowcast.Run.{done, Ends, ends, and_then}
use snowcast.Protocol.{client_already_connected}
use snowcast.State.Store.{
  State, Clients, lookup, delete, put, update, client_key, fresh_chan, ClientInfo,
}
use snowcast.State.Apply.{apply_handshake, rollback_handshake}
use snowcast.State.Maps.{lookup-put}
use snowcast.State.Effects.{IsPlaced, off_air}
use snowcast.State.Invariant.{IsConsistent, count-fresh}

-- The client that a handshake registers.
abbrev pub new_client : Text → ℕ → ClientInfo
new_client ip udp_port = record {
  udp_addr = record { ip = ip; port = udp_port };
  curr_station = minus_one;
  event_chan = fresh_chan;
}

abbrev pub registered_state : Text → ℕ → State → State
registered_state ip udp_port s = record s {
  heap = update s.heap s.next (new_client ip udp_port);
  next = s.next + 1;
  current_clients = put (client_key ip udp_port) s.next s.current_clients;
}

module _ (ip : Text) (udp_port : ℕ) (s : State) where
  pub apply_handshake-new :
      lookup (client_key ip udp_port) s.current_clients ≡ none
      → apply_handshake ip udp_port s
        ≡ done (client_key ip udp_port, none) (registered_state ip udp_port s)
  unfolding apply_handshake
  apply_handshake-new free = rw (free, apply_handshake)

  pub apply_handshake-taken :
      {p : ℕ}
      → lookup (client_key ip udp_port) s.current_clients ≡ some p
      → apply_handshake ip udp_port s
        ≡ done (client_key ip udp_port, some (client_already_connected (client_key ip udp_port))) s
  unfolding apply_handshake
  apply_handshake-taken taken = rw (taken, apply_handshake)

  module _ (h : IsConsistent s)
      (free : lookup (client_key ip udp_port) s.current_clients ≡ none) where
    old_client :
        (k : Text) (p : ℕ)
        → lookup k (put (client_key ip udp_port) s.next s.current_clients) ≡ some p
        → ((k ≡ client_key ip udp_port) × (p ≡ s.next))
          ⊎ ((lookup k s.current_clients ≡ some p) × ((s.next == p) ≡ false))
    old_client k p e =
        let key = client_key ip udp_port in
        let read = lookup-put key k s.next s.current_clients in
        elim (Bool-cases (text_eq key k)) [
          | inl same ↦ inl (sym ((text_eq_iff key k).0 same), ground (arith, read))
          | inr other ↦
              let old : lookup k s.current_clients ≡ some p = ground (arith, read) in
              inr (old, ground (arith, h.allocated k p old))
        ]

    IsPlaced-new : IsPlaced s.next (registered_state ip udp_port s)
    IsPlaced-new = record {
      stationed = inl (rw (==_refl s.next));
      listed = λ y. rw (==_refl s.next) (ground (arith, count-fresh h y, off_air y s.station_list));
    }

    IsPlaced-old :
        (p : ℕ) → (s.next == p) ≡ false → IsPlaced p s → IsPlaced p (registered_state ip udp_port s)
    IsPlaced-old p ne at = record {
      stationed = rw ne at.stationed;
      listed = λ y. rw ne (at.listed y);
    }

    pub registered-IsConsistent : IsConsistent (registered_state ip udp_port s)
    registered-IsConsistent = record {
      allocated = λ k p e. elim (old_client k p e) [
        | inl (a, b) ↦ omega arith
        | inr (old, ne) ↦ omega (arith, h.allocated k p old)
      ];
      unaliased = λ j k p e f. elim (old_client j p e) [
        | inl (a, b) ↦ elim (old_client k p f) [
          | inl (a', b') ↦ cc
          | inr (old', ne') ↦ absurd (ground arith)
        ]
        | inr (old, ne) ↦ elim (old_client k p f) [
          | inl (a', b') ↦ absurd (ground arith)
          | inr (old', ne') ↦ h.unaliased j k p old old'
        ]
      ];
      placed = λ k p e. elim (old_client k p e) [
        | inl (a, b) ↦ rw b IsPlaced-new
        | inr (old, ne) ↦ IsPlaced-old p ne (h.placed k p old)
      ];
      registered = λ p y n.
          let (k, f) = h.registered p y n in
          let key = client_key ip udp_port in
          (
            k,
            ground (
              arith,
              lookup-put key k s.next s.current_clients,
              text_eq_iff key k,
              ap (λ j. lookup j s.current_clients) {x = key} {y = k},
              f,
            ),
          );
      open_chan = λ k p e. elim (old_client k p e) [
        | inl (a, b) ↦ rw (b, ==_refl s.next)
        | inr (old, ne) ↦ rw ne (h.open_chan k p old)
      ];
    }

-- A handshake keeps the invariant, whether the key is free or taken, and it does not panic.
pub apply_handshake-IsConsistent :
    (ip : Text) (udp_port : ℕ) (s : State)
    → IsConsistent s
    → Ends (λ _ t. IsConsistent t) (apply_handshake ip udp_port s)
apply_handshake-IsConsistent ip udp_port s h =
    elim (Option-cases (lookup (client_key ip udp_port) s.current_clients)) [
      | inl free ↦
          rw (apply_handshake-new ip udp_port s free)
            (ends (registered-IsConsistent ip udp_port s h free))
      | inr (p, taken) ↦ rw (apply_handshake-taken ip udp_port s taken) (ends h)
    ]

delete-absent : (k : Text) (m : Clients) → lookup k m ≡ none → delete k m ≡ m
unfolding lookup delete
delete-absent k [] e = refl
delete-absent k ((j, p) ∷ m) e = ground (arith, delete-absent k m)

pub delete-put : (k : Text) (p : ℕ) (m : Clients) → lookup k m ≡ none → delete k (put k p m) ≡ m
unfolding put delete
delete-put k p m e = rw (text_eq_refl k, delete-absent k m e) (delete-absent k m e)

-- A handshake for a free key that is rolled back leaves the state as it was, but for one client
-- record that nothing refers to.
pub rollback_apply_handshake :
    (ip : Text) (udp_port : ℕ) (s : State)
    → lookup (client_key ip udp_port) s.current_clients ≡ none
    → Ends
        (λ _ t.
          t ≡ record s { heap = update s.heap s.next (new_client ip udp_port); next = s.next + 1 })
        (and_then (apply_handshake ip udp_port s) (λ _. rollback_handshake ip udp_port))
unfolding rollback_handshake
rollback_apply_handshake ip udp_port s free = rw (apply_handshake-new ip udp_port s free) (
    ends (
      ap
        (λ m. record s {
          heap = update s.heap s.next (new_client ip udp_port);
          next = s.next + 1;
          current_clients = m;
        })
        (delete-put (client_key ip udp_port) s.next s.current_clients free)))
