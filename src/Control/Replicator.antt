-- ===== src/Control/Replicator.antt =====
-- The interface `Replicator` of internal/control/grpc.go, and what a handler may rely on.
use snowcast.Prelude.{◌≡◌, ◌⊎◌, Option, none, some}
use snowcast.Run.{Run, done, panic, Go}
use snowcast.Protocol.{WalEntry, Error}
use snowcast.State.Store.{State}

-- `S` is the state of the process; the package state is a part of it.
pub record Replicator (S : Type 0) : Type 0 where
  pub mem : S → State
  pub with_mem : State → S → S
  pub replicate_and_wait :
      WalEntry → Go State (Option Error) → Go State (Unit {0}) → Go S (Option Error)

module _ {S : Type 0} (repl : Replicator S) where
  -- What an outcome says of the package state: no error means applied; an error means untouched,
  -- refused by `apply`, or applied (with or without an error) and rolled back; a panic is one of `apply`
  -- or of `rollback`.
  abbrev pub Settled :
      Go State (Option Error) → Go State (Unit {0}) → S → Run S (Option Error) → Type 0
  Settled apply rollback w (done none w') = apply (repl.mem w) ≡ done none (repl.mem w')
  Settled apply rollback w (done (some x) w') =
      (repl.mem w' ≡ repl.mem w)
      ⊎ ((y : Error) × (apply (repl.mem w) ≡ done (some y) (repl.mem w')))
      ⊎ ((y : Option Error) × (m : State) × (apply (repl.mem w) ≡ done y m)
          × (rollback m ≡ done tt (repl.mem w')))
  Settled apply rollback w (panic w') =
      ((m : State) × (apply (repl.mem w) ≡ panic m))
      ⊎ ((y : Option Error) × (m : State) × (m' : State) × (apply (repl.mem w) ≡ done y m)
          × (rollback m ≡ panic m'))

  pub record IsReplicator : Type 0 where
    pub mem-with_mem : (s : State) (w : S) → repl.mem (repl.with_mem s w) ≡ s
    pub settled :
        (entry : WalEntry) (apply : Go State (Option Error)) (rollback : Go State (Unit {0}))
        (w : S)
        → Settled apply rollback w (repl.replicate_and_wait entry apply rollback w)
