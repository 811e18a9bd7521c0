-- ===== src/State/Roster.antt =====
-- What a client can tell of the state: who is connected, and which station each one has. The
-- operations of the log act on this view alone.
use snowcast.Prelude.{
  ℕ, ◌≡◌, refl, ap, fun_ext, inr, Text, ℤ, minus_one, true, Option, none, some, List, arith, length,
  if◌then◌else◌, text_eq, text_eq_iff, Option-cases, inl, is_some,
}
use snowcast.Run.{Ends, ends, Ends-bind, Ends-mono}
use snowcast.Protocol.{
  Error, WalOp, HandshakeOp, SetStationOp, DisconnectOp, handshake, set_station, disconnect, unset,
}
use snowcast.State.Store.{State, Station, ClientInfo, lookup, client_key, in_range}
use snowcast.State.Apply.{apply_wal_op, apply_set_station, apply_disconnect}
use snowcast.State.Maps.{lookup-put, lookup-delete}
use snowcast.State.Invariant.{IsConsistent}
use snowcast.State.Moves.{Moved, IsConsistent-Moved, apply_set_station-Moved}
use snowcast.State.Sessions.{
  registered_state, apply_handshake-new, apply_handshake-taken, registered-IsConsistent,
}
use snowcast.State.Disconnect.{Departed, IsConsistent-Departed, apply_disconnect-Departed}

abbrev pub Roster : Type 0
Roster = Text → Option ℤ

abbrev pub station_of : (ℕ → ClientInfo) → Option ℕ → Option ℤ
station_of h none = none
station_of h (some p) = some (h p).curr_station

unfoldable pub roster : State → Roster
roster s k = station_of s.heap (lookup k s.current_clients)

abbrev pub assign : Roster → Text → Option ℤ → Roster
assign r key v k = if text_eq key k then v else r k

-- An operation of the log on the view; `none` where it is refused.
unfoldable pub spec_op : WalOp → Roster → Option Roster
spec_op (handshake op) r =
    let key = client_key op.client_ip op.udp_port in
    if is_some (r key) then none else some (assign r key (some minus_one))
spec_op (set_station op) r =
    let key = client_key op.client_ip op.udp_port in
    if is_some (r key) then some (assign r key (some op.station_number)) else none
spec_op (disconnect op) r =
    let key = client_key op.client_ip op.udp_port in
    if is_some (r key) then some (assign r key none) else none
spec_op unset r = none

-- The station of a `set_station` exists; the other operations name none.
abbrev pub IsValidOp : List Station → WalOp → Type 0
IsValidOp l (set_station op) = in_range op.station_number l ≡ true
IsValidOp l _ = Unit

-- A refused operation returns an error and changes nothing; another one returns no error and has
-- the specified effect.
abbrev pub Agrees : Option Roster → State → Option Error → State → Type 0
Agrees none s err t = (is_some err ≡ true) × (t ≡ s)
Agrees (some r) s err t = (err ≡ none) × (roster t ≡ r)

pub record Refines (op : WalOp) (s : State) (err : Option Error) (t : State) : Type 0 where
  pub consistent : IsConsistent t
  pub stations : length t.station_list ≡ length s.station_list
  pub agrees : Agrees (spec_op op (roster s)) s err t

pub roster-Moved :
    {s t : State} {p : ℕ} {z : ℤ} (key : Text)
    → IsConsistent s
    → lookup key s.current_clients ≡ some p
    → Moved p z s t
    → roster t ≡ assign (roster s) key (some z)
unfolding roster
roster-Moved {s} {t} {p} {z} key h found m = fun_ext λ k.
    rw (m.current_clients, m.heap)
      (ground (
        arith,
        found,
        text_eq_iff key k,
        ap (λ j. lookup j s.current_clients) {x = key} {y = k},
        h.unaliased key k p found,
      ))

pub roster-registered :
    {s : State} (ip : Text) (udp_port : ℕ)
    → IsConsistent s
    → roster (registered_state ip udp_port s)
      ≡ assign (roster s) (client_key ip udp_port) (some minus_one)
unfolding roster
roster-registered {s} ip udp_port h = fun_ext λ k.
    ground
      (arith, lookup-put (client_key ip udp_port) k s.next s.current_clients, h.allocated k s.next)

pub roster-Departed :
    {s t : State} {p : ℕ} (key : Text)
    → IsConsistent s
    → lookup key s.current_clients ≡ some p
    → Departed key p s t
    → roster t ≡ assign (roster s) key none
unfolding roster
roster-Departed {s} {t} {p} key h found d =
    fun_ext
      λ k. rw (d.current_clients, d.heap) (ground (arith, lookup-delete key k s.current_clients))

-- The three operations, each on a key that is known and on one that is not.
handshake-Refines :
    (op : HandshakeOp) (s : State)
    → IsConsistent s
    → Ends (Refines (handshake op) s) (apply_wal_op (handshake op) s)
unfolding apply_wal_op spec_op roster
handshake-Refines op s h =
    let key = client_key op.client_ip op.udp_port in
    elim (Option-cases (lookup key s.current_clients)) [
      | inl free ↦ rw (apply_handshake-new op.client_ip op.udp_port s free) (
          ends (record {
            consistent = registered-IsConsistent op.client_ip op.udp_port s h free;
            stations = refl;
            agrees = rw free (refl, roster-registered op.client_ip op.udp_port h);
          }))
      | inr (p, taken) ↦
          rw (apply_handshake-taken op.client_ip op.udp_port s taken)
            (ends (record { consistent = h; stations = refl; agrees = rw taken (refl, refl) }))
    ]

set_station-Refines :
    (op : SetStationOp) (s : State)
    → IsConsistent s
    → in_range op.station_number s.station_list ≡ true
    → Ends (Refines (set_station op) s) (apply_wal_op (set_station op) s)
unfolding apply_wal_op spec_op roster
set_station-Refines op s h v =
    let key = client_key op.client_ip op.udp_port in
    elim (Option-cases (lookup key s.current_clients)) [
      | inl free ↦
          rw (free, apply_set_station)
            (ends (record { consistent = h; stations = refl; agrees = rw free (refl, refl) }))
      | inr (p, found) ↦
          Ends-bind (apply_set_station-Moved key (h.placed key p found) found op.station_number v)
            λ r t m. ends (record {
              consistent = IsConsistent-Moved m.0 key found (inr v) h;
              stations = m.0.length;
              agrees = rw found (m.1, roster-Moved key h found m.0);
            })
    ]

disconnect-Refines :
    (op : DisconnectOp) (s : State)
    → IsConsistent s
    → Ends (Refines (disconnect op) s) (apply_wal_op (disconnect op) s)
unfolding apply_wal_op spec_op roster
disconnect-Refines op s h =
    let key = client_key op.client_ip op.udp_port in
    elim (Option-cases (lookup key s.current_clients)) [
      | inl free ↦
          rw (free, apply_disconnect)
            (ends (record { consistent = h; stations = refl; agrees = rw free (refl, refl) }))
      | inr (p, found) ↦ Ends-mono (apply_disconnect-Departed key h found) λ err t d. record {
        consistent = IsConsistent-Departed d.1 h found;
        stations = d.1.length;
        agrees = rw found (d.0, roster-Departed key h found d.1);
      }
    ]

-- On a consistent state, an operation of the log whose station exists does not panic, keeps the
-- invariant, and changes who is on which station as the specification says; where the specification
-- refuses it, an error is returned and nothing changes.
pub apply_wal_op-Refines :
    (op : WalOp) (s : State)
    → IsConsistent s
    → IsValidOp s.station_list op
    → Ends (Refines op s) (apply_wal_op op s)
unfolding apply_wal_op spec_op
apply_wal_op-Refines (handshake op) s h v = handshake-Refines op s h
apply_wal_op-Refines (set_station op) s h v = set_station-Refines op s h v
apply_wal_op-Refines (disconnect op) s h v = disconnect-Refines op s h
apply_wal_op-Refines unset s h v =
    ends (record { consistent = h; stations = refl; agrees = (refl, refl) })
