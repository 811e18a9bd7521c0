-- ===== src/Bench/Dispatch.antt =====
-- `runConcurrentLoad` of cmd/snowcast_bench/load.go as a step relation: the loop gives free workers to
-- goroutines, and each goroutine takes a slot, calls, counts the call, stores its latency, and frees its
-- worker. Worker `w` calls from the port `ports[w]` that was registered for it (Bench.Warmup); ports are
-- no part of the state.
use mathlib.Core.List.Perm
use mathlib.Core.List.{Perm, perm_middle}
use mathlib.Core.Path.{subst}
use snowcast.Prelude.{
  ℕ, zero, suc, ◌+◌, ◌%◌, ◌^◌, ◌<◌, ◌≡◌, refl, sym, ap, ◌∙◌, Option, none, some, length, List, [],
  ◌∷◌, ◌++◌, arith, append_assoc, append-nil,
}
use snowcast.Bench.Load.{FirstEvent, do_set_station, Progress, AreStations, no_progress}

-- A goroutine before its slot; with its call of `SetStation` for a station; with a completed call whose
-- latency is not in the list yet; and before it frees its worker.
pub data Task : Type 0 where
  dispatched : Task
  calling : (station : ℕ) → Task
  storing : (latency : ℕ) → Task
  leaving : Task

-- Behind the call: `completed.Add` where it counts.
abbrev pub behind_call : Option ℕ → Task
behind_call none = leaving
behind_call (some latency) = storing latency

abbrev pub completed_by : Option ℕ → Progress → Progress
completed_by none p = p
completed_by (some latency) p = record p { completed = p.completed + 1 }

-- The channel of free workers, the goroutines, `opSeq`, and what has been counted.
pub record Load : Type 0 where
  pub free : List ℕ
  pub busy : List (ℕ × Task)
  pub op_seq : ℕ  -- uint64
  pub progress : Progress

-- The workers `0` to `concurrency - 1`, and the load before the first tick.
abbrev pub workers_from : (i rounds : ℕ) → List ℕ
workers_from i zero = []
workers_from i (suc k) = i ∷ workers_from (i + 1) k

abbrev pub start_load : (concurrency : ℕ) → Load
start_load concurrency = record {
  free = workers_from 0 concurrency;
  busy = [];
  op_seq = 0;
  progress = no_progress;
}

abbrev pub next_slot : Load → ℕ
next_slot l = (l.op_seq + 1) % 2 ^ 64

-- `uint32(slot % uint64(cfg.numStations))`
abbrev pub station_of_slot : (num_stations slot : ℕ) → ℕ
station_of_slot num_stations slot = (slot % num_stations) % 2 ^ 32

-- A tick with no free worker does nothing and is left out.
pub data Step (num_stations : ℕ) : Load → Load → Type 0 where
  dispatch :
      {l : Load} (worker : ℕ) (free : List ℕ)
      → l.free ≡ worker ∷ free
      → Step num_stations l (record l { free = free; busy = (worker, dispatched) ∷ l.busy })
  request :
      {l : Load} (worker : ℕ) (front back : List (ℕ × Task))
      → l.busy ≡ front ++ (worker, dispatched) ∷ back
      → Step num_stations l (record l {
        op_seq = next_slot l;
        busy = front ++ (worker, calling (station_of_slot num_stations (next_slot l))) ∷ back;
        progress = record (l.progress) {
          requested = station_of_slot num_stations (next_slot l) ∷ l.progress.requested;
        };
      })
  finish :
      {l : Load} (worker station latency : ℕ) (front back : List (ℕ × Task)) (event : FirstEvent)
      → l.busy ≡ front ++ (worker, calling station) ∷ back
      → Step num_stations l (record l {
        busy = front ++ (worker, behind_call (do_set_station event latency)) ∷ back;
        progress = completed_by (do_set_station event latency) l.progress;
      })
  store :
      {l : Load} (worker latency : ℕ) (front back : List (ℕ × Task))
      → l.busy ≡ front ++ (worker, storing latency) ∷ back
      → Step num_stations l (record l {
        busy = front ++ (worker, leaving) ∷ back;
        progress = record (l.progress) { latencies = latency ∷ l.progress.latencies };
      })
  leave :
      {l : Load} (worker : ℕ) (front back : List (ℕ × Task))
      → l.busy ≡ front ++ (worker, leaving) ∷ back
      → Step num_stations l (record l { free = l.free ++ worker ∷ []; busy = front ++ back })

pub data Reached (num_stations concurrency : ℕ) : Load → Type 0 where
  at_start : Reached num_stations concurrency (start_load concurrency)
  and_then_step :
      {l m : Load}
      → Reached num_stations concurrency l
      → Step num_stations l m
      → Reached num_stations concurrency m

-- The workers of the goroutines.
abbrev pub in_flight : List (ℕ × Task) → List ℕ
in_flight [] = []
in_flight ((w, t) ∷ busy) = w ∷ in_flight busy

in_flight-append :
    (front back : List (ℕ × Task)) → in_flight (front ++ back) ≡ in_flight front ++ in_flight back
in_flight-append [] back = refl
in_flight-append ((w, t) ∷ front) back = ap (λ ws. w ∷ ws) (in_flight-append front back)

-- The completed calls whose latencies are not in the list yet.
abbrev pub is_storing : Task → ℕ
is_storing dispatched = 0
is_storing (calling station) = 0
is_storing (storing latency) = 1
is_storing leaving = 0

abbrev pub stored_next : List (ℕ × Task) → ℕ
stored_next [] = 0
stored_next ((w, t) ∷ busy) = is_storing t + stored_next busy

-- Every worker is free or in one goroutine, every requested station exists, and the calls that are
-- counted are the latencies and those that are about to be stored.
pub record IsLoaded (num_stations concurrency : ℕ) (l : Load) : Type 0 where
  pub owners : Perm (l.free ++ in_flight l.busy) (workers_from 0 concurrency)
  pub stations : AreStations num_stations l.progress.requested
  pub counted : l.progress.completed ≡ length l.progress.latencies + stored_next l.busy

stored_next-append :
    (front back : List (ℕ × Task))
    → stored_next (front ++ back) ≡ stored_next front + stored_next back
stored_next-append [] back = omega arith
stored_next-append ((w, t) ∷ front) back = omega (arith, stored_next-append front back)

-- One goroutine goes on.
stored_next-step :
    (worker : ℕ) (t u : Task) (front back busy : List (ℕ × Task))
    → busy ≡ front ++ (worker, t) ∷ back
    → stored_next (front ++ (worker, u) ∷ back) + is_storing t ≡ stored_next busy + is_storing u
stored_next-step worker t u front back busy e = omega (
  arith,
  ap stored_next e,
  stored_next-append front ((worker, t) ∷ back),
  stored_next-append front ((worker, u) ∷ back),
)

same_workers :
    (worker : ℕ) (t u : Task) (front back : List (ℕ × Task))
    → in_flight (front ++ (worker, t) ∷ back) ≡ in_flight (front ++ (worker, u) ∷ back)
same_workers worker t u front back =
    in_flight-append front ((worker, t) ∷ back) ∙ sym (in_flight-append front ((worker, u) ∷ back))

slot-lt : (n slot : ℕ) → 0 < n → station_of_slot n slot < n
slot-lt n slot h = ground arith

-- The worker that is freed goes to the back of the channel.
freed :
    (worker : ℕ) (t : Task) (free : List ℕ) (front back : List (ℕ × Task))
    → Perm
        ((free ++ worker ∷ []) ++ in_flight (front ++ back))
        (free ++ in_flight (front ++ (worker, t) ∷ back))
freed worker t free front back =
    rw
      (
        in_flight-append front back,
        in_flight-append front ((worker, t) ∷ back),
        append_assoc free (worker ∷ []) (in_flight front ++ in_flight back),
      )
      (Perm.append_left free (Perm.symm (perm_middle (in_flight front) (in_flight back))))

finish-counted :
    (o : Option ℕ) (p : Progress) (before after : ℕ)
    → after + 0 ≡ before + is_storing (behind_call o)
    → p.completed ≡ length p.latencies + before
    → (completed_by o p).completed ≡ length (completed_by o p).latencies + after
finish-counted none p before after step h = omega (arith, step, h)
finish-counted (some latency) p before after step h = omega (arith, step, h)

finish-stations :
    (n : ℕ) (o : Option ℕ) (p : Progress)
    → AreStations n p.requested
    → AreStations n (completed_by o p).requested
finish-stations n none p h = h
finish-stations n (some latency) p h = h

module _ (n c : ℕ) (some_station : 0 < n) where
  -- A goroutine that goes on keeps its worker.
  still_owned :
      (l : Load) (worker : ℕ) (t u : Task) (front back : List (ℕ × Task))
      → l.busy ≡ front ++ (worker, t) ∷ back
      → IsLoaded n c l
      → Perm (l.free ++ in_flight (front ++ (worker, u) ∷ back)) (workers_from 0 c)
  still_owned l worker t u front back e h =
      subst (λ ws. Perm (l.free ++ ws) (workers_from 0 c))
        (ap in_flight e ∙ same_workers worker t u front back) h.owners

  Step-IsLoaded : {l m : Load} → Step n l m → IsLoaded n c l → IsLoaded n c m
  Step-IsLoaded (dispatch {l} worker free e) h = record {
    owners =
        Perm.trans (perm_middle free (in_flight l.busy))
          (subst (λ ws. Perm (ws ++ in_flight l.busy) (workers_from 0 c)) e h.owners);
    stations = h.stations;
    counted = h.counted ∙ omega arith;
  }
  Step-IsLoaded (request {l} worker front back e) h =
      let task = calling (station_of_slot n (next_slot l)) in
      record {
        owners = still_owned l worker dispatched task front back e h;
        stations = (slot-lt n (next_slot l) some_station, h.stations);
        counted =
            omega (arith, h.counted, stored_next-step worker dispatched task front back l.busy e);
      }
  Step-IsLoaded (finish {l} worker station latency front back event e) h =
      let o = do_set_station event latency in
      record {
        owners = still_owned l worker (calling station) (behind_call o) front back e h;
        stations = finish-stations n o l.progress h.stations;
        counted =
            finish-counted o l.progress (stored_next l.busy) _
              (stored_next-step worker (calling station) (behind_call o) front back l.busy e)
              h.counted;
      }
  Step-IsLoaded (store {l} worker latency front back e) h = record {
    owners = still_owned l worker (storing latency) leaving front back e h;
    stations = h.stations;
    counted =
        omega
          (arith, h.counted, stored_next-step worker (storing latency) leaving front back l.busy e);
  }
  Step-IsLoaded (leave {l} worker front back e) h = record {
    owners =
        Perm.trans (freed worker leaving l.free front back)
          (subst (λ b. Perm (l.free ++ in_flight b) (workers_from 0 c)) e h.owners);
    stations = h.stations;
    counted = omega (
      arith,
      h.counted,
      ap stored_next e,
      stored_next-append front ((worker, leaving) ∷ back),
      stored_next-append front back,
    );
  }

  -- With at least one station, in every state that the concurrent load reaches, each of its workers
  -- is free or has exactly one goroutine, so that no worker has two requests in flight, every
  -- requested station exists, and the calls that are counted as completed are the latencies in the
  -- list and those that a goroutine is about to put there.
  pub Reached-IsLoaded : {l : Load} → Reached n c l → IsLoaded n c l
  Reached-IsLoaded at_start = record {
    owners = rw append-nil (Perm.refl (workers_from 0 c));
    stations = tt;
    counted = refl;
  }
  Reached-IsLoaded (and_then_step before step) = Step-IsLoaded step (Reached-IsLoaded before)
