-- ===== src/Failover/Raced.antt =====
-- Two handshakes of one client that both pass their check before either is replicated.
use snowcast.Prelude.{
  ℕ, ◌+◌, ◌%◌, ◌^◌, ◌<◌, ◌≡◌, refl, sym, ap, ◌∙◌, inr, true, Option, none, some, is_some, List, [],
  length, arith, Text,
}
use snowcast.Run.{
  Run, done, panic, Go, pure, ◌>>=◌, and_then, Result, ok, err, Ends, ends, done-state, done-value,
  done-ne-panic,
}
use snowcast.Protocol.{WalEntry, Error, client_already_connected}
use snowcast.State.Store.{State, init_stations, lookup}
use snowcast.State.Boot.{init_stations-IsConsistent, roster-init_stations}
use snowcast.State.Apply.{apply_handshake, rollback_handshake, get_client}
use snowcast.Wal.File.{Outcome}
use snowcast.Wal.Log.{Codec, Log}
use snowcast.Wal.Holds.{Holds, open_log-reopened}
use snowcast.Control.Replicator.{Replicator}
use snowcast.Control.Handlers.{client_ip, key_of, entry_of, handshake_op, error_of, handshake_free}
use snowcast.Replication.Coordinator.{Pair}
use snowcast.Replication.Dial.{
  Attempt, dial_backup, start, after_open, after_dial, start_with_wal_timeout,
}
use snowcast.Replication.Settles.{coordinator}
use snowcast.Replication.Commit.{
  Failed, not_logged, not_applied, not_replicated, replicate_and_wait-Committed, max_seq-numbered,
}
use snowcast.Replication.Recovery.{IsValidLog-length}
use snowcast.Failover.Repeated.{
  once, twice, length-once, twice-refused, twice-IsValid, start_with_wal-refused,
  welcomed-InStepLog, refused-Failed,
}
use snowcast.Failover.Tracked.{IsTracked, InStepLog}
use snowcast.Failover.Survives.{length-init_stations}

module _ {S : Type 0} (repl : Replicator S) where
  open repl use {mem}

  -- Two calls of `Handshake` for a port in one of their interleavings: both checks, then the whole
  -- `ReplicateAndWait` of the first, and then that of the second. Nothing in the coordinator makes them
  -- take turns; other interleavings are not modelled.
  unfoldable pub two_handshakes :
      (num_stations udp_port : ℕ) → Go S (Result Error ℕ × Result Error ℕ)
  unfolding get_client
  two_handshakes num_stations udp_port w = elim (get_client (key_of udp_port) (mem w)) [
    | some client ↦
        done
          (
            err (client_already_connected (key_of udp_port)),
            err (client_already_connected (key_of udp_port)),
          )
          w
    | none ↦
        (do
          first ← handshake_free repl num_stations udp_port
          second ← handshake_free repl num_stations udp_port
          pure (first, second))
          w
  ]

abbrev pair_up : {S A B : Type 0} → A → Run S B → Run S (A × B)
pair_up a q = and_then q (λ b. pure (a, b))

second_of :
    {S A B : Type 0} (c a : A) (b : B) (q : Run S B) (u : S)
    → pair_up c q ≡ done (a, b) u
    → (c ≡ a) × (q ≡ done b u)
second_of {S} c a b (done d v) u e =
    let values = done-value e in
    (ap (λ r. r.0) values, λ i. done (ap (λ r. r.1) values i) (done-state e i))
second_of c a b (panic v) u e = absurd (done-ne-panic (sym e))

in_turn :
    {S A B : Type 0} (q : Run S A) (f : Go S B) (a : A) (b : B) (u : S)
    → and_then q (λ c s. pair_up c (f s)) ≡ done (a, b) u
    → (v : S) × (q ≡ done a v) × (f v ≡ done b u)
in_turn {S} (done c v) f a b u e =
    let (same, ran) = second_of c a b (f v) u e in (v, ap (λ d. done d v) same, ran)
in_turn (panic v) f a b u e = absurd (done-ne-panic (sym e))

-- There is an error.
abbrev pub Fails : Option Error → Pair → Type 0
Fails x u = is_some x ≡ true

module _ (codec : Codec) (num_stations port : ℕ) (es : List WalEntry) (w : Pair)
    (t : IsTracked codec es w) (room : length es + 2 < 2 ^ 64)
    (free : lookup (key_of port) w.mem.current_clients ≡ none) where
  first_done :
      (k : ℕ) (v : Pair)
      → handshake_free (coordinator codec) num_stations port w ≡ done (ok k) v
      → InStepLog codec (once port es) v
  unfolding handshake_free
  first_done k v ran =
      welcomed-InStepLog codec port (num_stations % 2 ^ 32) w es es _ v k
        (replicate_and_wait-Committed codec (entry_of (handshake_op port))
          (error_of (apply_handshake client_ip port)) (rollback_handshake client_ip port) w es es []
          t.sync (inr refl) (omega (arith, room)))
        ran

  logged_anyway :
      (v u : Pair)
      → u.wal.seq ≡ v.wal.seq + 1
      → Failed codec
          (entry_of (handshake_op port))
          (error_of (apply_handshake client_ip port))
          (rollback_handshake client_ip port)
          v
          (once port es)
          (once port es)
          u
      → Holds codec u.wal (twice port es)
  logged_anyway v u logged (not_logged failed same seq backup) = absurd (omega (arith, logged, seq))
  logged_anyway v u logged (not_applied refused holds backup) = holds
  logged_anyway v u logged (not_replicated applied undone holds ahead) = holds

  second_done :
      (x : Error) (v u : Pair)
      → InStepLog codec (once port es) v
      → u.wal.seq ≡ v.wal.seq + 1
      → handshake_free (coordinator codec) num_stations port v ≡ done (err x) u
      → Holds codec u.wal (twice port es)
  unfolding handshake_free
  second_done x v u i logged ran = logged_anyway v u logged (
      refused-Failed codec port (num_stations % 2 ^ 32) v (once port es) (once port es) _ u x
        (replicate_and_wait-Committed codec (entry_of (handshake_op port))
          (error_of (apply_handshake client_ip port)) (rollback_handshake client_ip port) v
          (once port es) (once port es) [] i (inr refl) (omega (arith, room, length-once port es)))
        ran)

  seq-first : (v : Pair) → InStepLog codec (once port es) v → v.wal.seq ≡ w.wal.seq + 1
  seq-first v i =
      let after = i.primary.seq ∙ max_seq-numbered 0 (once port es) i.numbered in
      let before = t.sync.primary.seq ∙ max_seq-numbered 0 es t.sync.numbered in
      omega (arith, after, before, length-once port es)

  both_logged :
      (k : ℕ) (x : Error) (u : Pair)
      → two_handshakes (coordinator codec) num_stations port w ≡ done (ok k, err x) u
      → u.wal.seq ≡ w.wal.seq + 2
      → Holds codec u.wal (twice port es)
  unfolding two_handshakes get_client
  both_logged k x u ran logged =
      let (v, first, second) =
        in_turn (handshake_free (coordinator codec) num_stations port w)
          (handshake_free (coordinator codec) num_stations port) (ok k) (err x) u
          (rw (free, two_handshakes) at ran) in
      let i = first_done k v first in
      second_done x v u i (omega (arith, logged, seq-first v i)) second

  module _ (files : List Text) (blank : State) (as_many : length files ≡ length w.mem.station_list)
      (nobody : blank.current_clients ≡ []) where
    opened-Fails :
        (attempts : List Attempt) (u : Pair) (m : Log)
        → Holds codec m (twice port es)
        → Ends Fails (
            start_with_wal_timeout codec attempts
              (record u { mem = init_stations files blank; wal = m; last_wal_seq = 0 }))
    unfolding start_with_wal_timeout after_dial
    opened-Fails attempts u m holds = by_dial (dial_backup attempts)
      where
        by_dial :
            (x : Option Error)
            → Ends Fails (
                after_dial codec x
                  (record u { mem = init_stations files blank; wal = m; last_wal_seq = 0 }))
        by_dial (some e) = ends refl
        by_dial none =
            start_with_wal-refused codec (twice port es) (twice-refused codec port es w t free) _
              holds (init_stations-IsConsistent files blank nobody)
              (roster-init_stations files blank nobody)
              (IsValidLog-length w.mem.station_list _ (twice port es)
                (length-init_stations files blank ∙ as_many) (twice-IsValid codec port es w t free))

    -- Where primary and backup hold the same log, which the primary's memory comes to, the backup
    -- accepts calls and no write or sync of its file fails, take this interleaving of two
    -- Handshakes of one unknown client: both pass their check, then the first runs its
    -- ReplicateAndWait to the end, and then the second. If the first is answered with success and
    -- the second with an error after it was logged, the primary cannot start again: whatever the
    -- dial and the network do, Start on its file with an empty memory and as many stations returns
    -- an error.
    pub two_handshakes-Fails :
        (k : ℕ) (x : Error) (u : Pair) (outcomes : List Outcome) (attempts : List Attempt)
        → two_handshakes (coordinator codec) num_stations port w ≡ done (ok k, err x) u
        → u.wal.seq ≡ w.wal.seq + 2
        → Ends Fails (
            start codec u.wal.file.content outcomes attempts
              (record u { mem = init_stations files blank; last_wal_seq = 0 }))
    unfolding start after_open
    two_handshakes-Fails k x u outcomes attempts ran logged =
        let (m, opened, holds) =
          open_log-reopened codec outcomes u.wal (twice port es) (both_logged k x u ran logged) in
        rw opened (opened-Fails attempts u m holds)
