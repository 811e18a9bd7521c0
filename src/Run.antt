-- ===== src/Run.antt =====
-- Go code that returns errors, and Go code that changes a state and may panic. What was written before
-- a panic stays written, so a panic comes with the state: the files of a process outlive it.
use mathlib.Core.Path.{subst}
use snowcast.Prelude.{◌≡◌, refl, ap, sym}

-- Go's pair of a value and an `error`.
pub data Result {ℓ} (E A : Type ℓ) : Type ℓ where
  ok : A → Result E A
  err : E → Result E A

pub data Run {ℓ} (S A : Type ℓ) : Type ℓ where
  done : A → S → Run S A
  panic : S → Run S A

abbrev pub Go {ℓ} : Type ℓ → Type ℓ → Type ℓ
Go S A = S → Run S A

module _ {ℓ} {S A : Type ℓ} where
  abbrev pub pure : A → Go S A
  pure a s = done a s

  abbrev pub gets : (S → A) → Go S A
  gets f s = done (f s) s

  abbrev pub crash : Go S A
  crash s = panic s

  abbrev pub final : Run S A → S
  final (done a s) = s
  final (panic s) = s

module _ {S : Type 0} where
  abbrev pub modify : (S → S) → Go S (Unit {0})
  modify f s = done tt (f s)

module _ {ℓ} {S A B : Type ℓ} where
  abbrev pub and_then : Run S A → (A → Go S B) → Run S B
  and_then (done a s) f = f a s
  and_then (panic s) f = panic s

  infixl 5 ◌>>=◌ ◌>>◌
  abbrev pub ◌>>=◌ : Go S A → (A → Go S B) → Go S B
  ◌>>=◌ m f s = and_then (m s) f

  abbrev pub ◌>>◌ : Go S A → Go S B → Go S B
  m >> n = m >>= λ _. n

-- The run does not panic, and `P` holds of its result and its end state.
pub data Ends {S A : Type 0} (P : A → S → Type 0) : Run S A → Type 0 where
  ends : {a : A} {s : S} → P a s → Ends P (done a s)

module _ {S A : Type 0} {P : A → S → Type 0} where
  pub Ends-bind :
      {B : Type 0} {Q : B → S → Type 0} {r : Run S A} {f : A → Go S B}
      → Ends P r
      → ((a : A) (s : S) → P a s → Ends Q (f a s))
      → Ends Q (and_then r f)
  Ends-bind (ends h) k = k _ _ h

  pub Ends-mono :
      {Q : A → S → Type 0} {r : Run S A} → Ends P r → ((a : A) (s : S) → P a s → Q a s) → Ends Q r
  Ends-mono (ends h) k = ends (k _ _ h)

  Ends-here : {a : A} {s : S} → Ends P (done a s) → P a s
  Ends-here (ends h) = h

  pub Ends-at : {r : Run S A} {a : A} {s : S} → Ends P r → r ≡ done a s → P a s
  Ends-at h e = Ends-here (subst (Ends P) e h)

  -- The run written out.
  pub Ends-done : {r : Run S A} → Ends P r → (a : A) × (s : S) × (r ≡ done a s) × P a s
  Ends-done (ends h) = (_, _, refl, h)

module _ {S A : Type 0} where
  abbrev value_or : A → Run S A → A
  value_or d (done a s) = a
  value_or d (panic s) = d

  pub done-state : {a b : A} {s t : S} → ◌≡◌ {A = Run S A} (done a s) (done b t) → s ≡ t
  done-state {s} e = ap final e

  pub done-value : {a b : A} {s t : S} → ◌≡◌ {A = Run S A} (done a s) (done b t) → a ≡ b
  done-value {a} e = ap (value_or a) e

  abbrev IsPanic : Run S A → Type 0
  IsPanic (done a s) = ⊥
  IsPanic (panic s) = Unit

  pub done-ne-panic : {a : A} {s t : S} → ◌≡◌ {A = Run S A} (done a s) (panic t) → ⊥
  done-ne-panic e = subst IsPanic (sym e) tt
