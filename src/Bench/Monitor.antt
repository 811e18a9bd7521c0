-- ===== src/Bench/Monitor.antt =====
-- The goroutine of `executeLoad` in cmd/snowcast_bench/load.go that watches the backup while a load runs:
-- at each tick the number of the backup's last entry, or that the call failed, and the calls that are
-- completed so far.
use snowcast.Prelude.{
  ℕ, ◌+◌, ◌-◌, ◌%◌, ◌^◌, ◌≤◌, ◌<◌, ◌≡◌, refl, ap, ◌∙◌, Option, none, some, List, [], ◌∷◌, ltb, ◌&&◌,
  if◌then◌else◌, arith,
}

pub record Lag : Type 0 where
  pub max_seq_behind : ℕ
  pub max_lag_ms : ℕ

-- `int64(done) - int64(seq-startSeq)`, as 64 bits; half of them are negative.
unfoldable pub seq_behind : (start_seq seq completed : ℕ) → ℕ
seq_behind start_seq seq completed =
    (completed + 2 ^ 64 - (seq + 2 ^ 64 - start_seq) % 2 ^ 64) % 2 ^ 64

abbrev pub observe : ℕ → Lag → Lag
observe b lag =
    if ltb b (2 ^ 63) && ltb (lag.max_seq_behind) b
    then record { max_seq_behind = b; max_lag_ms = lag.max_lag_ms + 5 }
    else lag

unfoldable pub watch : (start_seq : ℕ) → List (Option ℕ × ℕ) → Lag → Lag
unfolding seq_behind
watch start_seq [] lag = lag
watch start_seq ((none, completed) ∷ ticks) lag = watch start_seq ticks lag
watch start_seq ((some seq, completed) ∷ ticks) lag =
    watch start_seq ticks (observe (seq_behind start_seq seq completed) lag)

-- The backup is at the start of the load or behind it, and no number has more than 63 bits.
abbrev pub AreReadings : ℕ → List (Option ℕ × ℕ) → Type 0
AreReadings start_seq [] = Unit
AreReadings start_seq ((none, completed) ∷ ticks) = AreReadings start_seq ticks
AreReadings start_seq ((some seq, completed) ∷ ticks) =
    (start_seq ≤ seq) × (seq < 2 ^ 63) × (completed < 2 ^ 63) × AreReadings start_seq ticks

-- By how many entries a reading is behind, and the largest of them.
abbrev pub missing : ℕ → ℕ → ℕ → ℕ
missing start_seq seq completed = completed - (seq - start_seq)

abbrev pub larger : ℕ → ℕ → ℕ
larger m n = if ltb m n then n else m

abbrev pub highest : ℕ → List (Option ℕ × ℕ) → ℕ → ℕ
highest start_seq [] m = m
highest start_seq ((none, completed) ∷ ticks) m = highest start_seq ticks m
highest start_seq ((some seq, completed) ∷ ticks) m =
    highest start_seq ticks (larger m (missing start_seq seq completed))

observe-larger :
    (start_seq seq completed : ℕ) (lag : Lag)
    → start_seq ≤ seq
    → seq < 2 ^ 63
    → completed < 2 ^ 63
    → (observe (seq_behind start_seq seq completed) lag).max_seq_behind
      ≡ larger (lag.max_seq_behind) (missing start_seq seq completed)
unfolding seq_behind
observe-larger start_seq seq completed lag low seq_fits completed_fits =
    ground (arith, low, seq_fits, completed_fits)

-- The largest number of entries that a reading was behind is what is reported.
pub watch-highest :
    (start_seq : ℕ) (ticks : List (Option ℕ × ℕ)) (lag : Lag)
    → AreReadings start_seq ticks
    → (watch start_seq ticks lag).max_seq_behind ≡ highest start_seq ticks (lag.max_seq_behind)
unfolding watch
watch-highest start_seq [] lag h = refl
watch-highest start_seq ((none, completed) ∷ ticks) lag h = watch-highest start_seq ticks lag h
watch-highest start_seq ((some seq, completed) ∷ ticks) lag h =
    watch-highest start_seq ticks (observe (seq_behind start_seq seq completed) lag) h.3
    ∙ ap (highest start_seq ticks) (observe-larger start_seq seq completed lag h.0 h.1 h.2)

-- No reading is further behind than `m`.
abbrev pub AreWithin : (start_seq m : ℕ) → List (Option ℕ × ℕ) → Type 0
AreWithin start_seq m [] = Unit
AreWithin start_seq m ((none, completed) ∷ ticks) = AreWithin start_seq m ticks
AreWithin start_seq m ((some seq, completed) ∷ ticks) =
    (seq_behind start_seq seq completed ≤ m) × AreWithin start_seq m ticks

observe-within : (b : ℕ) (lag : Lag) → b ≤ lag.max_seq_behind → observe b lag ≡ lag
observe-within b lag h = ground (arith, h)

-- As long as the backup is no further behind than it once was, nothing is added to the milliseconds,
-- however long that lasts.
pub watch-within :
    (start_seq : ℕ) (ticks : List (Option ℕ × ℕ)) (lag : Lag)
    → AreWithin start_seq (lag.max_seq_behind) ticks
    → watch start_seq ticks lag ≡ lag
unfolding watch
watch-within start_seq [] lag h = refl
watch-within start_seq ((none, completed) ∷ ticks) lag h = watch-within start_seq ticks lag h
watch-within start_seq ((some seq, completed) ∷ ticks) lag h =
    ap (watch start_seq ticks) (observe-within (seq_behind start_seq seq completed) lag h.0)
    ∙ watch-within start_seq ticks lag h.1
