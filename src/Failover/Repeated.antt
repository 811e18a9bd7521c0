-- ===== src/Failover/Repeated.antt =====
-- A log with two handshakes of one client cannot be replayed.
use mathlib.Core.Path.{subst}
use snowcast.Prelude.{
  ℕ, ◌+◌, ◌≡◌, refl, sym, ap, ◌∙◌, inl, inr, true, Option, none, some, is_some, Option-cases, List,
  [], ◌∷◌, ◌++◌, length, length-append, arith, minus_one, text_eq_refl,
}
use snowcast.Run.{
  Run, done, panic, Ends, ends, Ends-done, and_then, pure, ok, err, done-state, done-value,
  done-ne-panic,
}
use snowcast.Protocol.{WalEntry, Error, recover_seq}
use snowcast.State.Store.{lookup}
use snowcast.State.Invariant.{IsConsistent}
use snowcast.State.Roster.{Roster, roster, spec_op, assign}
use snowcast.Wal.Log.{Codec}
use snowcast.Wal.Holds.{Holds}
use snowcast.Wal.Append.{numbered}
use snowcast.State.Apply.{apply_handshake, rollback_handshake}
use snowcast.Control.Handlers.{key_of, entry_of, handshake_op, client_ip, error_of, answer}
use snowcast.Replication.Commit.{Committed, Failed}
use snowcast.Replication.Coordinator.{Pair, start_recovered, start_with_wal}
use snowcast.Replication.Recovery.{spec_replay, IsValidLog, Replayed, replay-Replayed}
use snowcast.Failover.Kept.{then_op, spec_replay-snoc, IsValidLog-snoc}
use snowcast.Failover.Tracked.{IsTracked, InStepLog}
use snowcast.Failover.Started.{start_with_wal-replayed}

spec_replay-refused :
    (es : List WalEntry) (e : WalEntry) (r q : Roster)
    → spec_replay es r ≡ some q
    → spec_op e.op q ≡ none
    → spec_replay (es ++ e ∷ []) r ≡ none
unfolding spec_replay
spec_replay-refused [] e r q before step =
    let same : r ≡ q = ground (arith, before) in rw (same, spec_replay, step) refl
spec_replay-refused (x ∷ es) e r q before step = elim (Option-cases (spec_op x.op r)) [
  | inl refused ↦ rw (refused, spec_replay) refl
  | inr (p, first) ↦
      rw (first, spec_replay)
        (spec_replay-refused es e p q (rw (first, spec_replay) at before) step)
]

-- The log with the handshake once and twice.
abbrev pub once : ℕ → List WalEntry → List WalEntry
once port es = then_op es (handshake_op port)

abbrev pub twice : ℕ → List WalEntry → List WalEntry
twice port es = then_op (once port es) (handshake_op port)

pub length-once : (port : ℕ) (es : List WalEntry) → length (once port es) ≡ length es + 1
length-once port es =
    length-append es (numbered (length es + 1) (entry_of (handshake_op port)) ∷ []) ∙ omega arith

module _ (codec : Codec) (port : ℕ) (es : List WalEntry) (w : Pair) (t : IsTracked codec es w)
    (free : lookup (key_of port) w.mem.current_clients ≡ none) where
  unknown : roster w.mem (key_of port) ≡ none
  unfolding roster
  unknown = rw free refl

  abbrev joined : Roster
  joined = assign (roster w.mem) (key_of port) (some minus_one)

  first_op : spec_op (handshake_op port) (roster w.mem) ≡ some joined
  unfolding spec_op
  first_op = rw unknown refl

  second_op : spec_op (handshake_op port) joined ≡ none
  unfolding spec_op
  second_op = rw (text_eq_refl (key_of port)) refl

  -- Under whichever number it is there a second time.
  pub again-refused :
      (n : ℕ)
      → spec_replay (once port es ++ numbered n (entry_of (handshake_op port)) ∷ []) (λ k. none)
        ≡ none
  again-refused n =
      spec_replay-refused (once port es) (numbered n (entry_of (handshake_op port))) (λ k. none)
        joined
        (spec_replay-snoc es (numbered (length es + 1) (entry_of (handshake_op port))) (λ k. none)
          (roster w.mem) joined t.agrees first_op)
        second_op

  pub again-IsValid :
      (n : ℕ)
      → IsValidLog w.mem.station_list
          (once port es ++ numbered n (entry_of (handshake_op port)) ∷ [])
  again-IsValid n =
      IsValidLog-snoc w.mem.station_list (once port es) (numbered n (entry_of (handshake_op port)))
        (IsValidLog-snoc w.mem.station_list es
          (numbered (length es + 1) (entry_of (handshake_op port))) t.valid tt)
        tt

  pub twice-refused : spec_replay (twice port es) (λ k. none) ≡ none
  twice-refused = again-refused (length (once port es) + 1)

  pub twice-IsValid : IsValidLog w.mem.station_list (twice port es)
  twice-IsValid = again-IsValid (length (once port es) + 1)

module _ (codec : Codec) (es : List WalEntry) (refused : spec_replay es (λ k. none) ≡ none) where
  recovered-refused :
      (x : Option Error) (w : Pair)
      → is_some x ≡ true
      → Ends (λ y u. is_some y ≡ true) (start_recovered codec x w)
  unfolding start_recovered
  recovered-refused none w fails = absurd (ground (arith, fails))
  recovered-refused (some x) w fails = ends refl

  -- A start over a log that cannot be replayed returns an error.
  pub start_with_wal-refused :
      (w : Pair)
      → Holds codec w.wal es
      → IsConsistent w.mem
      → roster w.mem ≡ (λ k. none)
      → IsValidLog w.mem.station_list es
      → Ends (λ y u. is_some y ≡ true) (start_with_wal codec w)
  start_with_wal-refused w holds h empty valid =
      let (x, t, ran, (kept, replayed)) =
        Ends-done (replay-Replayed recover_seq es w.mem h valid) in
      let fails : is_some x ≡ true =
        subst (λ o. Replayed o x t) (ap (spec_replay es) empty ∙ refused) replayed in
      rw (start_with_wal-replayed codec es w x t holds ran)
        (recovered-refused x (record w { mem = t }) fails)

-- A handshake that `ReplicateAndWait` answered without an error is in both logs.
module _ (codec : Codec) (port n : ℕ) (w : Pair) (es bs : List WalEntry) where
  abbrev pub HandshakeCommitted : Run Pair (Option Error) → Type 0
  HandshakeCommitted =
      Committed codec (entry_of (handshake_op port)) (error_of (apply_handshake client_ip port))
        (rollback_handshake client_ip port) w es bs

  pub welcomed-InStepLog :
      (q : Run Pair (Option Error)) (u : Pair) (k : ℕ)
      → HandshakeCommitted q
      → and_then q (λ e. pure (answer n e)) ≡ done (ok k) u
      → InStepLog codec (then_op es (handshake_op port)) u
  welcomed-InStepLog (done none z) u k c ran =
      let same : z ≡ u = done-state ran in
      subst (InStepLog codec (then_op es (handshake_op port))) same c.0
  welcomed-InStepLog (done (some y) z) u k c ran = absurd (ground (arith, done-value ran))
  welcomed-InStepLog (panic z) u k c ran = absurd (done-ne-panic (sym ran))

  pub refused-Failed :
      (q : Run Pair (Option Error)) (u : Pair) (x : Error)
      → HandshakeCommitted q
      → and_then q (λ e. pure (answer n e)) ≡ done (err x) u
      → Failed codec
          (entry_of (handshake_op port))
          (error_of (apply_handshake client_ip port))
          (rollback_handshake client_ip port)
          w
          es
          bs
          u
  refused-Failed (done (some y) z) u x c ran =
      let same : z ≡ u = done-state ran in
      subst
        (λ v.
          Failed codec (entry_of (handshake_op port)) (error_of (apply_handshake client_ip port))
            (rollback_handshake client_ip port) w es bs v)
        same c
  refused-Failed (done none z) u x c ran = absurd (ground (arith, done-value ran))
  refused-Failed (panic z) u x c ran = absurd (done-ne-panic (sym ran))
