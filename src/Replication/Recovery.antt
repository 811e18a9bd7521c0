-- ===== src/Replication/Recovery.antt =====
-- The replay of a log: on a fresh state, and on one that has the log's clients already.
use mathlib.Core.Path.{subst}
use snowcast.Prelude.{
  ℕ, ◌≡◌, refl, ◌∙◌, true, Option, none, some, is_some, arith, List, [], ◌∷◌, length,
}
use snowcast.Run.{done, Ends, ends, Ends-done}
use snowcast.Protocol.{
  WalEntry, WalOp, HandshakeOp, handshake, set_station, disconnect, unset, Error, recover_seq,
  recover_failed, client_already_connected,
}
use snowcast.State.Store.{State, Station, client_key, lookup}
use snowcast.State.Apply.{apply_wal_op, apply_wal_entry}
use snowcast.State.Effects.{in_range-length}
use snowcast.State.Invariant.{IsConsistent}
use snowcast.State.Roster.{Roster, roster, spec_op, IsValidOp, Agrees, apply_wal_op-Refines}
use snowcast.State.Sessions.{apply_handshake-taken}
use snowcast.Wal.Log.{Codec}
use snowcast.Wal.Holds.{Holds, read_all-Holds}
use snowcast.Replication.Coordinator.{Pair, replay, after_read, recover_primary, start_with_wal}

-- The operations of a log on the view of the clients, `none` where one is refused.
unfoldable pub spec_replay : List WalEntry → Roster → Option Roster
spec_replay [] r = some r
spec_replay (e ∷ es) r =
    let rest = λ (q : Roster). spec_replay es q in
    elim (spec_op e.op r) [ none ↦ none | some q ↦ rest q ]

-- Every station that the log names exists.
abbrev pub IsValidLog : List Station → List WalEntry → Type 0
IsValidLog l [] = Unit
IsValidLog l (e ∷ es) = IsValidOp l e.op × IsValidLog l es

pub IsValidOp-length :
    (l m : List Station) (op : WalOp) → length m ≡ length l → IsValidOp l op → IsValidOp m op
IsValidOp-length l m (handshake op) e v = v
IsValidOp-length l m (set_station op) e v = in_range-length op.station_number m l e ∙ v
IsValidOp-length l m (disconnect op) e v = v
IsValidOp-length l m unset e v = v

pub IsValidLog-length :
    (l m : List Station) (es : List WalEntry)
    → length m ≡ length l
    → IsValidLog l es
    → IsValidLog m es
IsValidLog-length l m [] e v = tt
IsValidLog-length l m (x ∷ es) e v =
    (IsValidOp-length l m x.op e v.0, IsValidLog-length l m es e v.1)

abbrev pub Replayed : Option Roster → Option Error → State → Type 0
Replayed none err t = is_some err ≡ true
Replayed (some r) err t = (err ≡ none) × (roster t ≡ r)

-- One entry, by its outcome and what the specification says.
replay_step :
    (wrap : ℕ → Error → Error) (es : List WalEntry) (s t : State) (e : WalEntry) (x : Option Error)
    → apply_wal_op e.op s ≡ done x t
    → IsConsistent t
    → Ends (λ err u. IsConsistent u × Replayed (spec_replay es (roster t)) err u) (replay wrap es t)
    → (o : Option Roster) → spec_op e.op (roster s) ≡ o
    → Agrees o s x t
    → Ends
        (λ err u. IsConsistent u × Replayed (spec_replay (e ∷ es) (roster s)) err u)
        (replay wrap (e ∷ es) s)
unfolding replay spec_replay apply_wal_entry
replay_step wrap es s t e none ran h rest none spec a = absurd (ground (arith, a.0))
replay_step wrap es s t e none ran h rest (some r) spec a =
    rw (ran, spec, spec_replay)
      (subst
        (λ q. Ends (λ err u. IsConsistent u × Replayed (spec_replay es q) err u) (replay wrap es t))
        (a.1) rest)
replay_step wrap es s t e (some x) ran h rest none spec a =
    rw (ran, spec, spec_replay) (ends (h, refl))
replay_step wrap es s t e (some x) ran h rest (some r) spec a = absurd (ground (arith, a.0))

-- Replaying a log whose stations all exist, from a consistent state, does not panic and keeps the
-- invariant; where the specification accepts every operation in turn it returns no error and leaves
-- every client at the station that the specification says, and otherwise it returns an error.
pub replay-Replayed :
    (wrap : ℕ → Error → Error) (es : List WalEntry) (s : State)
    → IsConsistent s
    → IsValidLog s.station_list es
    → Ends (λ err t. IsConsistent t × Replayed (spec_replay es (roster s)) err t) (replay wrap es s)
unfolding replay spec_replay
replay-Replayed wrap [] s h v = ends (h, (refl, refl))
replay-Replayed wrap (e ∷ es) s h v =
    let (x, t, ran, r) = Ends-done (apply_wal_op-Refines e.op s h (v.0)) in
    replay_step wrap es s t e x ran r.consistent
      (replay-Replayed wrap es t r.consistent
        (IsValidLog-length s.station_list t.station_list es r.stations (v.1)))
      (spec_op e.op (roster s)) refl r.agrees

-- A log that starts with the handshake of a client that is registered already.
module _ (codec : Codec) (w : Pair) (e : WalEntry) (es : List WalEntry) (op : HandshakeOp)
    (p : ℕ) where
  -- Where the primary's log holds entries of which the first is the handshake of a client that is
  -- already registered in memory, startWithWal returns the error of the recovery and changes
  -- nothing.
  pub start_with_wal-registered :
      Holds codec w.wal (e ∷ es)
      → e.op ≡ handshake op
      → lookup (client_key op.client_ip op.udp_port) w.mem.current_clients ≡ some p
      → start_with_wal codec w
        ≡ done
            (some (
              recover_failed (
                recover_seq e.seq
                  (client_already_connected (client_key op.client_ip op.udp_port)))))
            w
  unfolding start_with_wal recover_primary after_read replay apply_wal_entry apply_wal_op
  start_with_wal-registered holds first taken =
      rw
        (
          read_all-Holds codec w.wal (e ∷ es) holds,
          first,
          apply_handshake-taken op.client_ip op.udp_port w.mem taken,
        )
        refl
