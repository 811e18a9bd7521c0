-- ===== src/Bench/Marked.antt =====
-- What `parseBenchPhases` reads of the marks in a log, and what `runFailover` reports of them.
use snowcast.Prelude.{
  ℕ, ◌≡◌, refl, ap, ◌∙◌, fun_ext, Text, codes, Bool, true, false, Option, none, some, List, [], ◌∷◌,
  ◌++◌, ◌==◌, ◌&&◌, not, if◌then◌else◌, arith, is_decimal, all_decimal, all_decimal-decimal,
  decimal, value, value-decimal, decimal-cons, text_eq,
}
use snowcast.State.Store.{Clients, lookup}
use snowcast.State.Maps.{lookup-put}
use snowcast.Bench.Phases.{
  or_zero, Phases, marker, mark, is_space, no_space, span, strip, match_here, match_phase,
  match_spaces, match_number, find_submatch, from_marker, store_phase, scan_line, scan,
  parse_bench_phases, report, or_else,
}

-- The lines of a log: marks, and what else the process prints.
pub data LogLine : Type 0 where
  marked : (enabled : Bool) → (stamp phase : Text) → (ms : ℕ) → LogLine
  other : (text : Text) → LogLine

unfoldable pub written : List LogLine → List Text
written [] = []
written (marked enabled stamp phase ms ∷ ls) = mark enabled stamp phase ms ++ written ls
written (other text ∷ ls) = text ∷ written ls

-- The milliseconds of the last mark of a phase.
abbrev pub mark_from : Text → List LogLine → Option ℕ → Option ℕ
mark_from key [] found = found
mark_from key (marked true stamp phase ms ∷ ls) found =
    mark_from key ls (if text_eq phase key then some ms else found)
mark_from key (marked false stamp phase ms ∷ ls) found = mark_from key ls found
mark_from key (other text ∷ ls) found = mark_from key ls found

abbrev pub last_mark : List LogLine → Text → Option ℕ
last_mark ls key = mark_from key ls none

abbrev pub ms_or_zero : Option ℕ → ℕ
ms_or_zero none = 0
ms_or_zero (some ms) = ms

-- What is to be reported.
abbrev pub reported : (Text → Option ℕ) → Phases
reported marks = record {
  wal_replay_ms = ms_or_zero (marks (codes "failover_wal_replay"));
  grpc_startup_ms = ms_or_zero (marks (codes "failover_grpc_startup"));
  promote_total_ms = ms_or_zero (marks (codes "failover_promote_total"));
}

abbrev pub all : (ℕ → Bool) → Text → Bool
all p [] = true
all p (c ∷ cs) = p c && all p cs

abbrev pub no_b : ℕ → Bool
no_b c = not (66 == c)

-- A mark whose time stamp has no `B` and whose phase is a word, or a line without the marker.
abbrev pub IsLine : LogLine → Type 0
IsLine (marked enabled stamp [] ms) = true ≡ false
IsLine (marked enabled stamp (c ∷ cs) ms) = (all no_b stamp ≡ true) × (all no_space (c ∷ cs) ≡ true)
IsLine (other text) = from_marker text ≡ none

abbrev pub AreLines : List LogLine → Type 0
AreLines [] = true ≡ true
AreLines (l ∷ ls) = IsLine l × AreLines ls

span-stop :
    (p : ℕ → Bool) (xs : Text) (c : ℕ) (ys : Text)
    → all p xs ≡ true
    → p c ≡ false
    → span p (xs ++ c ∷ ys) ≡ (xs, c ∷ ys)
unfolding span
span-stop p [] c ys h stop = rw stop refl
span-stop p (x ∷ xs) c ys h stop = ground (arith, h, span-stop p xs c ys, stop)

span-all : (p : ℕ → Bool) (xs : Text) → all p xs ≡ true → span p xs ≡ (xs, [])
unfolding span
span-all p [] h = refl
span-all p (x ∷ xs) h = ground (arith, h, span-all p xs)

strip-append : (ps t : Text) → strip ps (ps ++ t) ≡ some t
unfolding strip
strip-append [] t = refl
strip-append (p ∷ ps) t = ground (arith, strip-append ps t)

from_marker-append :
    (stamp t : Text)
    → all no_b stamp ≡ true
    → from_marker (stamp ++ (marker ++ t)) ≡ some (marker ++ t)
unfolding from_marker strip
from_marker-append [] t h = refl
from_marker-append (c ∷ cs) t h = ground (arith, h, from_marker-append cs t)

all_decimal-all : (t : Text) → all is_decimal t ≡ all_decimal t
all_decimal-all [] = refl
all_decimal-all (c ∷ cs) = ap (λ b. is_decimal c && b) (all_decimal-all cs)

match_number-decimal :
    (phase : Text) (ms : ℕ) → match_number phase (decimal ms, []) ≡ some (phase, decimal ms)
match_number-decimal phase ms = let (d, ds, cons) = decimal-cons ms in rw cons refl

match_here-mark :
    (c : ℕ) (cs : Text) (ms : ℕ)
    → all no_space (c ∷ cs) ≡ true
    → match_here (marker ++ ((c ∷ cs) ++ (codes " ms=" ++ decimal ms))) ≡ some (c ∷ cs, decimal ms)
unfolding match_here strip
match_here-mark c cs ms h =
    ap match_phase (span-stop no_space (c ∷ cs) 32 (codes "ms=" ++ decimal ms) h refl)
    ∙ ap (match_spaces (c ∷ cs))
        (span-stop is_space (32 ∷ []) 109 (115 ∷ 61 ∷ decimal ms) refl refl)
    ∙ ap (match_number (c ∷ cs))
        (span-all is_decimal (decimal ms) (all_decimal-all (decimal ms) ∙ all_decimal-decimal ms))
    ∙ match_number-decimal (c ∷ cs) ms

find_submatch-mark :
    (c : ℕ) (cs : Text) (ms : ℕ)
    → all no_space (c ∷ cs) ≡ true
    → find_submatch (marker ++ ((c ∷ cs) ++ (codes " ms=" ++ decimal ms)))
      ≡ some (c ∷ cs, decimal ms)
unfolding find_submatch
find_submatch-mark c cs ms h =
    ap
      (λ q.
        or_else q
          (find_submatch (codes "ENCH phase=" ++ ((c ∷ cs) ++ (codes " ms=" ++ decimal ms)))))
      (match_here-mark c cs ms h)

-- A line with a mark sets its phase.
scan_line-mark :
    (key stamp : Text) (c : ℕ) (cs : Text) (ms : ℕ) (phases : Clients)
    → all no_b stamp ≡ true
    → all no_space (c ∷ cs) ≡ true
    → lookup key (
        scan_line phases
          (from_marker (stamp ++ (marker ++ ((c ∷ cs) ++ (codes " ms=" ++ decimal ms))))))
      ≡ (if text_eq (c ∷ cs) key then some ms else lookup key phases)
scan_line-mark key stamp c cs ms phases h word =
    ap (λ q. lookup key (scan_line phases q))
      (from_marker-append stamp ((c ∷ cs) ++ (codes " ms=" ++ decimal ms)) h)
    ∙ ap (λ q. lookup key (store_phase phases q)) (find_submatch-mark c cs ms word)
    ∙ lookup-put (c ∷ cs) key (value 0 (decimal ms)) phases
    ∙ ap (λ n. if text_eq (c ∷ cs) key then some n else lookup key phases) (value-decimal ms)

scan-written :
    (key : Text) (ls : List LogLine) (phases : Clients)
    → AreLines ls
    → lookup key (scan phases (written ls)) ≡ mark_from key ls (lookup key phases)
unfolding scan written mark
scan-written key [] phases h = refl
scan-written key (marked true stamp [] ms ∷ ls) phases h = absurd (ground (arith, h.0))
scan-written key (marked true stamp (c ∷ cs) ms ∷ ls) phases h =
    scan-written key ls _ h.1
    ∙ ap (mark_from key ls) (scan_line-mark key stamp c cs ms phases h.0.0 h.0.1)
scan-written key (marked false stamp phase ms ∷ ls) phases h = scan-written key ls phases h.1
scan-written key (other text ∷ ls) phases h =
    ap (λ q. lookup key (scan (scan_line phases q) (written ls))) h.0
    ∙ scan-written key ls phases h.1

or_zero-ms : (o : Option ℕ) → or_zero o ≡ ms_or_zero o
or_zero-ms none = refl
or_zero-ms (some ms) = refl

report-reported : (marks : Text → Option ℕ) → report marks ≡ reported marks
unfolding report
report-reported marks =
    rw
      (
        or_zero-ms (marks (codes "failover_wal_replay")),
        or_zero-ms (marks (codes "failover_grpc_startup")),
        or_zero-ms (marks (codes "failover_promote_total")),
      )
      refl

-- Where the time stamps have no B, the phases are words and no other line has the marker, what is
-- read back for a phase are the milliseconds of its last mark, and the times that are reported are
-- those of the last marks of their phases, or 0 without one.
pub parse_bench_phases-mark :
    (ls : List LogLine) (key : Text)
    → AreLines ls
    → (lookup key (parse_bench_phases (written ls)) ≡ last_mark ls key)
      × (report (λ k. lookup k (parse_bench_phases (written ls))) ≡ reported (last_mark ls))
unfolding parse_bench_phases lookup
parse_bench_phases-mark ls key h =
    let read = λ (k : Text). scan-written k ls [] h in
    (read key, ap report (fun_ext read) ∙ report-reported (last_mark ls))
