-- ===== src/Bench/Load.antt =====
-- The loads of cmd/snowcast_bench/load.go: how many workers there are, the requests of the sequential load,
-- and the levels of a sweep. What a call meets and how long it took is given.
use snowcast.Prelude.{
  ℕ, ◌+◌, ◌-◌, ◌%◌, ◌^◌, ◌<◌, ◌≡◌, refl, Text, codes, ℤ, pos, negsuc, Bool, false, Option, none,
  some, List, [], ◌∷◌, length, ltb, ◌==◌, text_eq, if◌then◌else◌, arith,
}
use snowcast.Run.{done, panic, Go, Ends, ends}
use snowcast.Protocol.{ServerEvent, announce, invalid}

-- The fields of `loadConfig` that are numbers, and its mode.
pub record LoadConfig : Type 0 where
  pub rps : ℤ
  pub num_stations : ℤ
  pub port_base : ℤ
  pub mode : Text
  pub concurrency : ℤ

abbrev pub between_1_and_500 : ℤ → ℤ
between_1_and_500 (negsuc n) = pos 1
between_1_and_500 (pos n) = if ltb 500 n then pos 500 else if ltb n 1 then pos 1 else pos n

-- The number of workers in `executeLoad`.
abbrev pub workers_of : LoadConfig → ℤ → ℤ
workers_of c (negsuc n) = between_1_and_500 c.rps
workers_of c (pos n) = if n == 0 then between_1_and_500 c.rps else pos n

unfoldable pub workers : LoadConfig → ℤ
workers c = if text_eq c.mode (codes "sequential") then pos 1 else workers_of c c.concurrency

-- `doSetStation`, by the call and the first event; the latency of one that counts.
pub data FirstEvent : Type 0 where
  call_failed : FirstEvent
  recv_failed : FirstEvent
  first : ServerEvent → FirstEvent

unfoldable pub do_set_station : FirstEvent → ℕ → Option ℕ
do_set_station call_failed latency = none
do_set_station recv_failed latency = none
do_set_station (first (invalid reply)) latency = none
do_set_station (first (announce song)) latency = some latency

pub record Progress : Type 0 where
  pub requested : List ℕ  -- the last one first
  pub latencies : List ℕ  -- the last one first
  pub completed : ℕ

abbrev pub counted : Option ℕ → Progress → Progress
counted none p = p
counted (some latency) p = record p {
  latencies = latency ∷ p.latencies;
  completed = p.completed + 1;
}

-- `uint64(x)`
abbrev pub to_uint64 : ℤ → ℕ
to_uint64 (pos n) = n % 2 ^ 64
to_uint64 (negsuc n) = 2 ^ 64 - 1 - n % 2 ^ 64

-- The rounds of the loop before its deadline; a remainder by 0 panics.
unfoldable pub run_rounds :
    (num_stations op_seq : ℕ) → List (FirstEvent × ℕ) → Go Progress (Unit {0})
unfolding do_set_station
run_rounds num_stations op_seq [] p = done tt p
run_rounds num_stations op_seq ((event, latency) ∷ rounds) p =
    let rest = λ (q : Progress). run_rounds num_stations ((op_seq + 1) % 2 ^ 64) rounds q in
    if num_stations == 0
    then panic p
    else rest (
        counted (do_set_station event latency)
          (record p { requested = (op_seq % num_stations) % 2 ^ 32 ∷ p.requested }))

abbrev pub is_zero : ℤ → Bool
is_zero (pos n) = n == 0
is_zero (negsuc n) = false

-- `runSequentialLoad`, which starts with a division by the rate.
unfoldable pub run_sequential_load : LoadConfig → List (FirstEvent × ℕ) → Go Progress (Unit {0})
unfolding run_rounds
run_sequential_load c rounds p =
    if is_zero c.rps then panic p else run_rounds (to_uint64 c.num_stations) 0 rounds p

-- Every requested station exists, and as many calls are counted as latencies.
abbrev pub AreStations : ℕ → List ℕ → Type 0
AreStations n [] = Unit
AreStations n (k ∷ ks) = (k < n) × AreStations n ks

pub record IsCounted (n : ℕ) (p : Progress) : Type 0 where
  pub stations : AreStations n p.requested
  pub counted : p.completed ≡ length p.latencies

pub counted-IsCounted :
    (n : ℕ) (o : Option ℕ) (p : Progress) → IsCounted n p → IsCounted n (counted o p)
counted-IsCounted n none p h = h
counted-IsCounted n (some latency) p h = record {
  stations = h.stations;
  counted = omega (arith, h.counted);
}

mod-lt_32 : (a n : ℕ) → 0 < n → (a % n) % 2 ^ 32 < n
mod-lt_32 a n h = ground arith

pub run_rounds-IsCounted :
    (n op_seq : ℕ) (rounds : List (FirstEvent × ℕ)) (p : Progress)
    → 0 < n
    → IsCounted n p
    → Ends (λ _ q. IsCounted n q) (run_rounds n op_seq rounds p)
unfolding run_rounds
run_rounds-IsCounted n op_seq [] p h c = ends c
run_rounds-IsCounted n op_seq ((event, latency) ∷ rounds) p h c =
    let some_station : (n == 0) ≡ false = ground (arith, h) in
    rw some_station (
      run_rounds-IsCounted n ((op_seq + 1) % 2 ^ 64) rounds _ h (
        counted-IsCounted n (do_set_station event latency) _
          (record { stations = (mod-lt_32 op_seq n h, c.stations); counted = c.counted })))

abbrev pub no_progress : Progress
no_progress = record { requested = []; latencies = []; completed = 0 }

pub run_sequential_load-IsCounted :
    (c : LoadConfig) (n : ℕ) (rounds : List (FirstEvent × ℕ))
    → c.num_stations ≡ pos n
    → 0 < n
    → n < 2 ^ 64
    → is_zero c.rps ≡ false
    → Ends (λ _ p. IsCounted n p) (run_sequential_load c rounds no_progress)
unfolding run_sequential_load
run_sequential_load-IsCounted c n rounds stations some_station fits some_rate =
    let whole : n % 2 ^ 64 ≡ n = ground (arith, fits) in
    rw (some_rate, stations, whole)
      (run_rounds-IsCounted n 0 rounds no_progress some_station
        (record { stations = tt; counted = refl }))
