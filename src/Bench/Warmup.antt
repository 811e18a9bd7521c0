-- ===== src/Bench/Warmup.antt =====
-- The loop of `executeLoad` in cmd/snowcast_bench/load.go that registers the workers, against a server
-- over any replicator. A call reaches the server; its other fates end the loop or are dropped.
use mathlib.Core.Path.{subst}
use snowcast.Prelude.{
  ℕ, zero, suc, ◌+◌, ◌%◌, ◌^◌, ◌≡◌, refl, ap, ◌∙◌, fun_ext, Text, ℤ, minus_one, Bool, true, false,
  Option, none, some, arith,
}
use snowcast.Run.{Go, pure, ◌>>=◌, ◌>>◌, Result, ok, err, Ends, ends, Ends-bind}
use snowcast.Protocol.{Error}
use snowcast.State.Invariant.{IsConsistent}
use snowcast.State.Roster.{Roster, roster, assign}
use snowcast.Control.Replicator.{Replicator, IsReplicator}
use snowcast.Control.Handlers.{key_of, handle_handshake, handle_disconnect}
use snowcast.Control.Handshake.{HandshakeDone, handle_handshake-Done}
use snowcast.Control.Leave.{DisconnectDone, handle_disconnect-Done}
use snowcast.Bench.Load.{to_uint64}

-- `uint32(cfg.portBase + i)`
abbrev pub worker_port : ℤ → ℕ → ℕ
worker_port port_base i = (to_uint64 port_base + i) % 2 ^ 32

module _ {S : Type 0} (repl : Replicator S) (num_stations : ℕ) (port_base : ℤ) where
  open repl use {mem}

  unfoldable pub after_handshake : Go S (Option Error) → Result Error ℕ → Go S (Option Error)
  after_handshake rest (err e) = pure (some e)
  after_handshake rest (ok n) = rest

  -- The rounds from `i` on; `num_stations` is the server's field.
  unfoldable pub warm_up : (i rounds : ℕ) → Go S (Option Error)
  unfolding after_handshake
  warm_up i zero = pure none
  warm_up i (suc k) =
      let rest = warm_up (i + 1) k in
      handle_disconnect repl (worker_port port_base i)
      >> (handle_handshake repl num_stations (worker_port port_base i) >>= after_handshake rest)

  -- The clients behind the rounds from `i` on: each worker is on no station.
  abbrev pub warmed : (i rounds : ℕ) → Roster → Roster
  warmed i zero r = r
  warmed i (suc k) r =
      warmed (i + 1) k (assign r (key_of (worker_port port_base i)) (some minus_one))

  -- Without an error all workers are registered, and nobody else moved.
  abbrev pub WarmedUp : (i rounds : ℕ) → Roster → Option Error → S → Type 0
  WarmedUp i k r none w' = IsConsistent (mem w') × (roster (mem w') ≡ warmed i k r)
  WarmedUp i k r (some e) w' = IsConsistent (mem w')

  assign-assign :
      (r : Roster) (key : Text) (u v : Option ℤ) → assign (assign r key u) key v ≡ assign r key v
  assign-assign r key u v = fun_ext λ k. ground arith

  module _ (law : IsReplicator repl) where
    -- Whatever the Disconnect did, a handshake that succeeds leaves the worker on no station.
    registered_again :
        (port : ℕ) (w v u : S) (x : Bool × Option Error) (n : ℕ)
        → DisconnectDone repl port w x v
        → HandshakeDone repl num_stations port v (ok n) u
        → IsConsistent (mem u)
          × (roster (mem u) ≡ assign (roster (mem w)) (key_of port) (some minus_one))
    registered_again port w v u (true, e) n gone joined = (
      joined.1,
      joined.3
          ∙ ap (λ r. assign r (key_of port) (some minus_one)) gone.1.1
          ∙ assign-assign (roster (mem w)) (key_of port) none (some minus_one),
    )
    registered_again port w v u (false, e) n same joined =
        (joined.1, joined.3 ∙ ap (λ r. assign r (key_of port) (some minus_one)) same.1)

    DisconnectDone-IsConsistent :
        (port : ℕ) (w v : S) (x : Bool × Option Error)
        → DisconnectDone repl port w x v
        → IsConsistent (mem v)
    DisconnectDone-IsConsistent port w v (true, e) d = d.1.0
    DisconnectDone-IsConsistent port w v (false, e) d = d.0

    -- The handshake's answer, and the rounds behind it.
    after_handshake-WarmedUp :
        (i k : ℕ) (w v u : S) (x : Bool × Option Error) (r : Result Error ℕ)
        (rest : Go S (Option Error))
        → DisconnectDone repl (worker_port port_base i) w x v
        → HandshakeDone repl num_stations (worker_port port_base i) v r u
        → (IsConsistent (mem u) → Ends (WarmedUp (i + 1) k (roster (mem u))) (rest u))
        → Ends (WarmedUp i (suc k) (roster (mem w))) (after_handshake rest r u)
    unfolding after_handshake
    after_handshake-WarmedUp i k w v u x (err e) rest left joined more = ends joined.0
    after_handshake-WarmedUp i k w v u x (ok n) rest left joined more =
        let (h, seen) = registered_again (worker_port port_base i) w v u x n left joined in
        subst (λ r. Ends (WarmedUp (i + 1) k r) (rest u)) seen (more h)

    -- Against a server over any replicator and on a consistent state, the rounds of Disconnect and
    -- Handshake that register the workers do not panic and keep the invariant; without an error
    -- every worker is registered on no station and no other client moved.
    pub warm_up-WarmedUp :
        (i k : ℕ) (w : S)
        → IsConsistent (mem w)
        → Ends (WarmedUp i k (roster (mem w))) (warm_up i k w)
    unfolding warm_up
    warm_up-WarmedUp i zero w h = ends (h, refl)
    warm_up-WarmedUp i (suc k) w h =
        let port = worker_port port_base i in
        Ends-bind (handle_disconnect-Done repl law port w h) λ x v left.
          Ends-bind
            (handle_handshake-Done repl law num_stations port v
              (DisconnectDone-IsConsistent port w v x left))
            λ r u joined.
              after_handshake-WarmedUp i k w v u x r (warm_up (i + 1) k) left joined
                λ c. warm_up-WarmedUp (i + 1) k u c
