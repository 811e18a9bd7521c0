-- ===== src/Control/Outcome.antt =====
-- What a handler may conclude from the outcome of `ReplicateAndWait`, for an `apply` that succeeds and
-- a `rollback` that undoes it.
use mathlib.Core.Path.{subst}
use snowcast.Prelude.{◌≡◌, ◌∙◌, sym, inl, inr, Option, none, some, arith}
use snowcast.Run.{
  Run, done, panic, Go, Ends, ends, Ends-done, done-state, done-value, done-ne-panic,
}
use snowcast.Protocol.{Error}
use snowcast.State.Store.{State}
use snowcast.Control.Replicator.{Replicator, Settled}

module _ {S : Type 0} (repl : Replicator S) where
  open repl use {mem}

  -- Applied, or as before.
  abbrev pub Outcome : (State → Type 0) → (State → Type 0) → Option Error → S → Type 0
  Outcome Applied Before none w = Applied (mem w)
  Outcome Applied Before (some x) w = Before (mem w)

  module _ (Applied Before : State → Type 0) (apply : Go State (Option Error))
      (rollback : Go State (Unit {0})) (w : S)
      (works : Ends
        (λ e t. (e ≡ none) × Applied t × Ends (λ _ u. Before u) (rollback t))
        (apply (mem w)))
      (before : Before (mem w)) where
    pub Settled-Ends :
        (q : Run S (Option Error))
        → Settled repl apply rollback w q
        → Ends (Outcome Applied Before) q
    Settled-Ends (done none v) same =
        let (e, t, ran, (fine, applied, back)) = Ends-done works in
        ends (subst Applied (done-state (sym ran ∙ same)) applied)
    Settled-Ends (done (some x) v) (inl same) = ends (subst Before (sym same) before)
    Settled-Ends (done (some x) v) (inr (inl (y, refused))) =
        let (e, t, ran, (fine, applied, back)) = Ends-done works in
        absurd (ground (arith, done-value (sym ran ∙ refused)))
    Settled-Ends (done (some x) v) (inr (inr (y, m, again, undone))) =
        let (e, t, ran, (fine, applied, back)) = Ends-done works in
        let (_, u, undid, old) =
          Ends-done (
            subst (λ m. Ends (λ _ u. Before u) (rollback m)) (done-state (sym ran ∙ again)) back) in
        ends (subst Before (done-state (sym undid ∙ undone)) old)
    Settled-Ends (panic v) (inl (m, crashed)) =
        let (e, t, ran, (fine, applied, back)) = Ends-done works in
        absurd (done-ne-panic (sym ran ∙ crashed))
    Settled-Ends (panic v) (inr (y, m, m', again, crashed)) =
        let (e, t, ran, (fine, applied, back)) = Ends-done works in
        let (_, u, undid, old) =
          Ends-done (
            subst (λ m. Ends (λ _ u. Before u) (rollback m)) (done-state (sym ran ∙ again)) back) in
        absurd (done-ne-panic (sym undid ∙ crashed))
