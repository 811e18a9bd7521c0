-- ===== src/Bench/Replayed.antt =====
-- What the measured replay does.
use mathlib.Core.Path.{subst}
use snowcast.Prelude.{
  ℕ, zero, suc, ◌+◌, ◌^◌, ◌≤◌, ◌<◌, ◌≡◌, refl, sym, ap, ◌∙◌, pos, minus_one, true, false, Option,
  none, some, List, [], ◌∷◌, ◌++◌, arith, text_eq, text_eq_iff, Bool-cases, inl, inr,
}
use snowcast.Run.{Ends, Ends-mono, ok}
use snowcast.Protocol.{WalEntry, Error}
use snowcast.State.Store.{State, init_stations}
use snowcast.State.Maps.{client_key-injective}
use snowcast.State.Boot.{init_stations-IsConsistent, roster-init_stations}
use snowcast.State.Invariant.{IsConsistent}
use snowcast.State.Roster.{Roster, roster, assign, spec_op}
use snowcast.Wal.File.{Bytes, Outcome}
use snowcast.Wal.Log.{Codec, Log, append, open_log, close, max_seq}
use snowcast.Wal.Records.{cursor}
use snowcast.Wal.Holds.{Holds, open_log-cursor, read_all-Holds, open_log-reopened}
use snowcast.Wal.Append.{numbered, append-calm}
use snowcast.Control.Handlers.{key_of, client_ip}
use snowcast.Replication.Recovery.{spec_replay, IsValidLog, replay-Replayed, Replayed}
use snowcast.Failover.Kept.{spec_replay-snoc, IsValidLog-snoc}
use snowcast.Bench.Replay.{
  replay_port, replay_entry, replay_stations, reset, no_wrap, replay_read, and_append,
  append_handshakes, replay_opened, replay_appended, replay_created, isolated_replay,
}

-- The clients behind n handshakes: each is on no station.
abbrev pub registered : ℕ → Roster
registered zero = λ k. none
registered (suc n) = assign (registered n) (key_of (replay_port n)) (some minus_one)

abbrev pub handshakes : ℕ → List WalEntry
handshakes zero = []
handshakes (suc n) = handshakes n ++ numbered (n + 1) (replay_entry n) ∷ []

key-apart :
    (i j : ℕ)
    → i < j
    → j < 2 ^ 32
    → text_eq (key_of (replay_port i)) (key_of (replay_port j)) ≡ false
key-apart i j h fits =
    elim (Bool-cases (text_eq (key_of (replay_port i)) (key_of (replay_port j)))) [
      | inr apart ↦ apart
      | inl same ↦
          let keys = (text_eq_iff (key_of (replay_port i)) (key_of (replay_port j))).0 same in
          let ports =
            (client_key-injective client_ip client_ip (replay_port i) (replay_port j) keys).1 in
          absurd (omega (arith, ports, h, fits))
    ]

registered-free : (n m : ℕ) → n ≤ m → m < 2 ^ 32 → registered n (key_of (replay_port m)) ≡ none
registered-free zero m h fits = refl
registered-free (suc n) m h fits =
    rw (key-apart n m (omega (arith, h)) fits) (registered-free n m (omega (arith, h)) fits)

handshake-registered :
    (n : ℕ)
    → suc n ≤ 2 ^ 32
    → spec_op (numbered (n + 1) (replay_entry n)).op (registered n) ≡ some (registered (suc n))
unfolding spec_op
handshake-registered n h = rw (registered-free n n (omega arith) (omega (arith, h))) refl

handshakes-registered :
    (n : ℕ) → n ≤ 2 ^ 32 → spec_replay (handshakes n) (λ k. none) ≡ some (registered n)
unfolding spec_replay
handshakes-registered zero h = refl
handshakes-registered (suc n) h =
    spec_replay-snoc (handshakes n) (numbered (n + 1) (replay_entry n)) (λ k. none) (registered n)
      (registered (suc n)) (handshakes-registered n (omega (arith, h))) (handshake-registered n h)

handshakes-IsValid : (s : State) (n : ℕ) → IsValidLog s.station_list (handshakes n)
handshakes-IsValid s zero = tt
handshakes-IsValid s (suc n) =
    IsValidLog-snoc s.station_list (handshakes n) (numbered (n + 1) (replay_entry n))
      (handshakes-IsValid s n) tt

-- Without an error the n clients are registered, and nobody else.
pub record IsReplayed (n : ℕ) (x : Option Error) (s : State) : Type 0 where
  pub fine : x ≡ none
  pub consistent : IsConsistent s
  pub clients : roster s ≡ registered n

module _ (codec : Codec) (n : ℕ) (few : n ≤ 2 ^ 32)
    (codes : (i : ℕ)
      → i < n
      → (b : Bytes) × (codec.marshal (numbered (i + 1) (replay_entry i)) ≡ some b)) where
  abbrev Appends : ℕ → ℕ → Log → Type 0
  Appends i k l =
      (end : Log) × (append_handshakes codec i k l ≡ (none, close end))
      × Holds codec end (handshakes n)

  -- The next round, of which only this is known.
  record IsNext (i : ℕ) (l : Log) : Type 0 where
    after : Log
    ran : append codec (replay_entry i) l ≡ (ok (l.seq + 1), after)
    holds : Holds codec after (handshakes i ++ numbered (i + 1) (replay_entry i) ∷ [])
    calm : after.file.outcomes ≡ []
    seq : after.seq ≡ i + 1

  round_fine :
      (i : ℕ) (l : Log)
      → i < n
      → Holds codec l (handshakes i)
      → l.seq ≡ i
      → l.file.outcomes ≡ []
      → IsNext i l
  round_fine i l inside holds seq calm =
      let (b, m) = codes i inside in
      let (after, ran, kept, calm', seq') =
        append-calm codec (replay_entry i) l (handshakes i) b holds
          (omega (arith, seq, inside, few)) calm
          (ap (λ q. codec.marshal (numbered (q + 1) (replay_entry i))) seq ∙ m) in
      record {
        after = after;
        ran = ran;
        holds =
            subst (λ q. Holds codec after (handshakes i ++ numbered (q + 1) (replay_entry i) ∷ []))
              seq kept;
        calm = calm';
        seq = seq' ∙ ap (λ q. q + 1) seq;
      }

  append_handshakes-Holds :
      (i k : ℕ) (l : Log)
      → i + k ≡ n
      → Holds codec l (handshakes i)
      → l.seq ≡ i
      → l.file.outcomes ≡ []
      → Appends i k l
  unfolding append_handshakes and_append
  append_handshakes-Holds i zero l all holds seq calm =
      let whole : i ≡ n = omega (arith, all) in (l, refl, rw (sym whole) holds)
  append_handshakes-Holds i (suc k) l all holds seq calm =
      let up : suc i ≡ i + 1 = omega arith in
      let step = round_fine i l (omega (arith, all)) holds seq calm in
      let (end, more, holds') =
        append_handshakes-Holds (i + 1) k (step.after) (omega (arith, all))
          (subst (λ q. Holds codec step.after (handshakes q)) up step.holds) step.seq step.calm in
      (end, rw step.ran more, holds')

  reset-is :
      (s : State) → reset s ≡ init_stations replay_stations (record s { current_clients = [] })
  unfolding init_stations
  reset-is s = refl

  Replayed-IsReplayed :
      (x : Option Error) (s : State)
      → IsConsistent s
      → Replayed (some (registered n)) x s
      → IsReplayed n x s
  Replayed-IsReplayed x s h (fine, seen) = record { fine = fine; consistent = h; clients = seen }

  replay_read-IsReplayed :
      (s : State) (l : Log) → Ends (IsReplayed n) (replay_read (ok (handshakes n), l) (reset s))
  unfolding replay_read
  replay_read-IsReplayed s l =
      let blank = record s { current_clients = [] } in
      let boot = init_stations replay_stations blank in
      rw (reset-is s) (
        Ends-mono
          (replay-Replayed no_wrap (handshakes n) boot
            (init_stations-IsConsistent replay_stations blank refl) (handshakes-IsValid boot n))
          λ x t h. Replayed-IsReplayed x t h.0 (
            subst (λ o. Replayed o x t)
              (ap (spec_replay (handshakes n)) (roster-init_stations replay_stations blank refl)
                ∙ handshakes-registered n few)
              h.1))

  replay_opened-IsReplayed :
      (again : List Outcome) (l : Log) (s : State)
      → Holds codec l (handshakes n)
      → Ends (IsReplayed n) (replay_opened codec (open_log codec l.file.content again) s)
  unfolding replay_opened
  replay_opened-IsReplayed again l s holds =
      let (m, opened, same) = open_log-reopened codec again l (handshakes n) holds in
      rw (opened, replay_opened, read_all-Holds codec m (handshakes n) same)
        (replay_read-IsReplayed s m)

  -- Where the temporary file is gone at first and no write to it fails, with a message for every
  -- entry and at most 2^32 handshakes, the measured replay does not panic and returns no error: it
  -- leaves a consistent state in which exactly the clients of the n handshakes are registered, each
  -- on no station, whatever was in memory before.
  pub isolated_replay-IsReplayed :
      (again : List Outcome) (s : State)
      → Ends (IsReplayed n) (isolated_replay codec [] [] again (pos n) s)
  unfolding isolated_replay replay_created replay_appended close
  isolated_replay-IsReplayed again s =
      let first : Log = record { file = cursor [] [] []; is_open = true; seq = max_seq 0 [] } in
      let empty : Holds codec first (handshakes 0) = record {
        bytes = [];
        at_end = refl;
        encodes = refl;
        is_open = refl;
        seq = refl;
      } in
      let (l, ran, holds) =
        append_handshakes-Holds 0 n first (omega arith) empty (unfold max_seq in refl) refl in
      rw (open_log-cursor codec [] [] [] refl, ran) (replay_opened-IsReplayed again l s holds)
