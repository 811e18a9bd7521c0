-- ===== src/Node/Twice.antt =====
-- A promotion that reaches its backup replays the log a second time.
use mathlib.Core.Path.{subst}
use snowcast.Prelude.{
  ℕ, ◌≡◌, refl, Text, true, false, Option, none, some, is_some, arith, List, [], ◌∷◌, text_eq,
  Option-cases, inl, inr,
}
use snowcast.Run.{Ends, ends, Ends-done}
use snowcast.Protocol.{WalEntry, HandshakeOp, handshake, Error, apply_wal_seq}
use snowcast.State.Store.{State, init_stations, client_key, lookup}
use snowcast.State.Roster.{Roster, roster}
use snowcast.State.Boot.{init_stations-IsConsistent, roster-init_stations}
use snowcast.Wal.Log.{Codec}
use snowcast.Wal.Holds.{Holds}
use snowcast.Replication.Dial.{dial_backup}
use snowcast.Replication.Recovery.{
  spec_replay, IsValidLog, Replayed, replay-Replayed, start_with_wal-registered,
}
use snowcast.Leadership.Session.{Session}
use snowcast.Node.Manager.{
  Node, standby, local_only, Surroundings, started, serve_clients, connect, dialled, after_replay,
  promote_to_leader,
}
use snowcast.Node.Promote.{caught_up, promote_to_leader-replayed}

known_client :
    (s : State) (k : Text)
    → is_some (roster s k) ≡ true
    → (p : ℕ) × (lookup k s.current_clients ≡ some p)
unfolding roster
known_client s k seen = elim (Option-cases (lookup k s.current_clients)) [
  | inl nobody ↦ let gone : is_some (roster s k) ≡ false = rw nobody refl in absurd (ground arith)
  | inr found ↦ found
]

-- What the node comes to: it serves with its log only, and every client is where the log says.
pub record IsLocal (r : Roster) (x : Option Error) (m : Node) : Type 0 where
  pub fine : x ≡ none
  pub service : m.client_srv ≡ some local_only
  pub unconnected : m.connected ≡ false
  pub clients : roster m.pair.mem ≡ r

module _ (codec : Codec) (env : Surroundings) (session : Session) (m : Node) (e : WalEntry)
    (es : List WalEntry) (op : HandshakeOp) (r : Roster)
    (address : text_eq m.cfg.backup_addr [] ≡ false) (reached : dial_backup env.attempts ≡ none)
    (serves : env.serves ≡ true) (holds : Holds codec m.pair.wal (e ∷ es))
    (first : e.op ≡ handshake op) where
  connected_in_vain :
      (t : State)
      → roster t ≡ r
      → is_some (r (client_key op.client_ip op.udp_port)) ≡ true
      → Ends (IsLocal r) (after_replay codec env none (caught_up codec env session m t))
  unfolding after_replay connect dialled started serve_clients
  connected_in_vain t seen still =
      let (p, found) = known_client t (client_key op.client_ip op.udp_port) (rw seen still) in
      let again =
        start_with_wal-registered codec (record (m.pair) { mem = t }) e es op p holds first found in
      rw (address, reached, again, serves)
        (ends (record { fine = refl; service = refl; unconnected = refl; clients = seen }))

  -- A standby that reaches its backup, whose memory has no clients and whose log is valid for its
  -- stations, starts with a handshake and replays to clients among which its client still is, and
  -- whose ports open, is promoted without an error, but serves with its log only and has no
  -- coordinator; every client is where the log says.
  pub promote_to_leader-IsLocal :
      m.role ≡ standby
      → m.pair.mem.current_clients ≡ []
      → IsValidLog (init_stations m.cfg.files m.pair.mem).station_list (e ∷ es)
      → spec_replay (e ∷ es) (λ k. none) ≡ some r
      → is_some (r (client_key op.client_ip op.udp_port)) ≡ true
      → Ends (IsLocal r) (promote_to_leader codec env session m)
  promote_to_leader-IsLocal is_standby nobody valid spec still =
      let boot = init_stations m.cfg.files m.pair.mem in
      let (x, t, ran, (h, replayed)) = Ends-done (
        replay-Replayed apply_wal_seq (e ∷ es) boot
          (init_stations-IsConsistent m.cfg.files m.pair.mem nobody) valid) in
      let at_spec : Replayed (some r) x t =
        subst (λ o. Replayed o x t) spec
          (subst (λ (q : Roster). Replayed (spec_replay (e ∷ es) q) x t)
            (roster-init_stations m.cfg.files m.pair.mem nobody) replayed) in
      rw
        (
          promote_to_leader-replayed codec env session m (e ∷ es) x t is_standby holds ran,
          at_spec.0,
        )
        (connected_in_vain t (at_spec.1) still)
