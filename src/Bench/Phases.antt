-- ===== src/Bench/Phases.antt =====
-- The marks that a process logs (internal/bench/markers.go), `parseBenchPhases` that reads them back
-- (cmd/snowcast_bench/util.go), and what `runFailover` reports of them (failover.go). The milliseconds
-- of a `time.Duration` are below 2 ^ 53, so that a float64 holds them exactly.
use snowcast.Prelude.{
  ℕ, Text, codes, Bool, true, false, Option, none, some, List, [], ◌∷◌, ◌++◌, ◌==◌, ◌||◌, not,
  if◌then◌else◌, is_decimal, decimal, value,
}
use snowcast.State.Store.{Clients, put}

abbrev pub marker : Text
marker = codes "BENCH phase="

-- `Mark`, behind the time stamp that package log writes; `enabled` is the test of the environment.
unfoldable pub mark : (enabled : Bool) → (stamp phase : Text) → (ms : ℕ) → List Text
mark false stamp phase ms = []
mark true stamp phase ms = (stamp ++ (marker ++ (phase ++ (codes " ms=" ++ decimal ms)))) ∷ []

-- `\s`
abbrev pub is_space : ℕ → Bool
is_space c = c == 9 || c == 10 || c == 12 || c == 13 || c == 32

abbrev pub no_space : ℕ → Bool
no_space c = not (is_space c)

abbrev pub and_char : ℕ → Text × Text → Text × Text
and_char c (run, rest) = (c ∷ run, rest)

-- The longest run of characters with `p`, and the rest.
unfoldable pub span : (ℕ → Bool) → Text → Text × Text
span p [] = ([], [])
span p (c ∷ cs) = let more = span p cs in if p c then and_char c more else ([], c ∷ cs)

unfoldable pub strip : Text → Text → Option Text
strip [] t = some t
strip (p ∷ ps) [] = none
strip (p ∷ ps) (c ∷ cs) = let more = strip ps cs in if p == c then more else none

-- `BENCH phase=(\S+)\s+ms=(\d+)` at the start of a text: what follows a run cannot be in it, so that the
-- longest one is the one that is matched.
abbrev pub match_number : Text → Text × Text → Option (Text × Text)
match_number phase ([], rest) = none
match_number phase (d ∷ ds, rest) = some (phase, d ∷ ds)

abbrev pub match_ms : Text → Option Text → Option (Text × Text)
match_ms phase none = none
match_ms phase (some t) = match_number phase (span is_decimal t)

abbrev pub match_spaces : Text → Text × Text → Option (Text × Text)
match_spaces phase ([], rest) = none
match_spaces phase (c ∷ cs, rest) = match_ms phase (strip (codes "ms=") rest)

abbrev pub match_phase : Text × Text → Option (Text × Text)
match_phase ([], rest) = none
match_phase (c ∷ cs, rest) = match_spaces (c ∷ cs) (span is_space rest)

abbrev pub match_marker : Option Text → Option (Text × Text)
match_marker none = none
match_marker (some t) = match_phase (span no_space t)

unfoldable pub match_here : Text → Option (Text × Text)
unfolding span strip
match_here t = match_marker (strip marker t)

abbrev pub or_else : {A : Type 0} → Option A → Option A → Option A
or_else none y = y
or_else (some x) y = some x

-- `FindStringSubmatch`: the leftmost match.
unfoldable pub find_submatch : Text → Option (Text × Text)
unfolding match_here
find_submatch [] = none
find_submatch (c ∷ cs) = let more = find_submatch cs in or_else (match_here (c ∷ cs)) more

-- `line[idx:]` for the first `idx` where the marker stands.
unfoldable pub from_marker : Text → Option Text
unfolding strip
from_marker [] = none
from_marker (c ∷ cs) =
    let more = from_marker cs in
    elim (strip marker (c ∷ cs)) [ some t ↦ some (c ∷ cs) | none ↦ more ]

abbrev pub store_phase : Clients → Option (Text × Text) → Clients
store_phase phases none = phases
store_phase phases (some (phase, ms)) = put phase (value 0 ms) phases

abbrev pub scan_line : Clients → Option Text → Clients
scan_line phases none = phases
scan_line phases (some t) = store_phase phases (find_submatch t)

-- The loop over the lines, none of which is too long for the scanner.
unfoldable pub scan : Clients → List Text → Clients
unfolding from_marker find_submatch
scan phases [] = phases
scan phases (line ∷ lines) = scan (scan_line phases (from_marker line)) lines

unfoldable pub parse_bench_phases : List Text → Clients
unfolding scan
parse_bench_phases lines = scan [] lines

-- The fields of `failoverResult` that are read from the log.
pub record Phases : Type 0 where
  pub wal_replay_ms : ℕ
  pub grpc_startup_ms : ℕ
  pub promote_total_ms : ℕ

abbrev pub or_zero : Option ℕ → ℕ
or_zero none = 0
or_zero (some n) = n

unfoldable pub report : (Text → Option ℕ) → Phases
report phases = record {
  wal_replay_ms = or_zero (phases (codes "failover_wal_replay"));
  grpc_startup_ms = or_zero (phases (codes "failover_grpc_startup"));
  promote_total_ms = or_zero (phases (codes "failover_promote_total"));
}
