-- ===== src/Bench/Replay.antt =====
-- cmd/snowcast_bench/setup.go: the time of a replay, of which the times are left out. The temporary
-- file has the outcomes of its coming writes, and is opened twice.
use snowcast.Prelude.{
  ℕ, zero, suc, ◌+◌, ◌%◌, ◌^◌, Text, codes, ℤ, pos, negsuc, Option, none, some, List, [], ◌∷◌,
}
use snowcast.Run.{done, Go, ◌>>=◌, Result, ok, err}
use snowcast.Protocol.{WalEntry, Error}
use snowcast.State.Store.{State, init_stations}
use snowcast.Wal.File.{Bytes, Outcome}
use snowcast.Wal.Log.{Codec, Log, append, open_log, read_all, close}
use snowcast.Control.Handlers.{entry_of, handshake_op}
use snowcast.Replication.Coordinator.{replay}

-- `uint32(10000 + i)`
abbrev pub replay_port : ℕ → ℕ
replay_port i = (10000 + i) % 2 ^ 32

-- The loop's address is that of the handlers, "127.0.0.1".
abbrev pub replay_entry : ℕ → WalEntry
replay_entry i = entry_of (handshake_op (replay_port i))

-- `filepath.Join("mp3", "a.mp3")`
abbrev pub replay_stations : List Text
replay_stations = codes "mp3/a.mp3" ∷ []

-- The rounds of `for i := 0; i < n; i++`.
abbrev pub rounds_of : ℤ → ℕ
rounds_of (pos n) = n
rounds_of (negsuc n) = 0

abbrev pub reset : State → State
reset s = record (init_stations replay_stations s) { current_clients = [] }

abbrev pub no_wrap : ℕ → Error → Error
no_wrap seq e = e

unfoldable pub replay_read : Result Error (List WalEntry) × Log → Go State (Option Error)
replay_read (err e, l) = λ s. done (some e) s
replay_read (ok es, l) = replay no_wrap es

module _ (codec : Codec) where
  unfoldable pub and_append : (Log → Option Error × Log) → Result Error ℕ × Log → Option Error × Log
  and_append rest (err e, l) = (some e, close l)
  and_append rest (ok seq, l) = rest l

  -- The rounds from `i` on; the log is closed behind them, and by an error.
  unfoldable pub append_handshakes : (i rounds : ℕ) → Log → Option Error × Log
  unfolding and_append
  append_handshakes i zero l = (none, close l)
  append_handshakes i (suc k) l =
      let rest = λ (m : Log). append_handshakes (i + 1) k m in
      and_append rest (append codec (replay_entry i) l)

  unfoldable pub replay_opened : Result Error Log → Go State (Option Error)
  unfolding replay_read
  replay_opened (err e) s = done (some e) s
  replay_opened (ok l) s = replay_read (read_all codec l) (reset s)

  unfoldable pub replay_appended : List Outcome → Option Error × Log → Go State (Option Error)
  unfolding replay_opened
  replay_appended again (some e, l) s = done (some e) s
  replay_appended again (none, l) s = replay_opened (open_log codec l.file.content again) s

  unfoldable pub replay_created :
      List Outcome → (rounds : ℕ) → Result Error Log → Go State (Option Error)
  unfolding replay_appended
  replay_created again n (err e) s = done (some e) s
  replay_created again n (ok l) s = replay_appended again (append_handshakes 0 n l) s

  -- `isolatedReplayMS`; `left` is what is in the file behind the first `os.Remove`, whose error is
  -- dropped: nothing where it succeeds or there is no file.
  unfoldable pub isolated_replay :
      (left : Bytes) → (outcomes again : List Outcome) → ℤ → Go State (Option Error)
  unfolding replay_created
  isolated_replay left outcomes again n s =
      replay_created again (rounds_of n) (open_log codec left outcomes) s

  unfoldable pub and_count : Go State (Option Error) → Option Error → Go State (Option Error)
  and_count rest (some e) s = done (some e) s
  and_count rest none s = rest s

  -- The loop of `runSetupWalReplay` over the counts, whose file works.
  unfoldable pub replay_counts : List ℤ → Go State (Option Error)
  unfolding and_count
  replay_counts [] s = done none s
  replay_counts (n ∷ counts) s =
      let rest = replay_counts counts in
      (isolated_replay [] [] [] n >>= and_count rest) (record s { current_clients = [] })

  unfoldable pub run_setup_wal_replay : (station_file : Text) → List ℤ → Go State (Option Error)
  unfolding replay_counts
  run_setup_wal_replay station_file counts s =
      replay_counts counts (init_stations (station_file ∷ []) s)
