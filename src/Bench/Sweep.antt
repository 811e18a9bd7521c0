-- ===== src/Bench/Sweep.antt =====
-- The levels of `runConcurrencySweep` in cmd/snowcast_bench/load.go. What a load at a level gave is given;
-- `degraded` compares its latency with the baseline's.
use snowcast.Prelude.{
  ◌≡◌, refl, inl, inr, ℤ, pos, Bool, false, Bool-cases, List, [], ◌∷◌, ◌&&◌, if◌then◌else◌,
}
use snowcast.Run.{Result, ok, err}
use snowcast.Protocol.{Error}
use snowcast.Bench.Load.{is_zero}

module _ {A : Type 0} (degraded : A → Bool) where
  -- The levels with whether they are degraded, and `DegradationAtConcurrency`.
  abbrev pub Swept : Type 0
  Swept = Result Error (List (ℤ × Bool) × ℤ)

  abbrev pub and_level : ℤ → Bool → Swept → Swept
  and_level level b (err x) = err x
  and_level level b (ok (levels, at)) = ok ((level, b) ∷ levels, at)

  unfoldable pub run_levels : List (ℤ × Result Error A) → ℤ → Swept
  run_levels [] at = ok ([], at)
  run_levels ((level, err x) ∷ more) at = err x
  run_levels ((level, ok res) ∷ more) at =
      let rest = λ (z : ℤ). run_levels more z in
      and_level level (degraded res) (rest (if degraded res && is_zero at then level else at))

  -- The first level that is degraded; 0 where none is.
  abbrev pub first_degraded : List (ℤ × A) → ℤ
  first_degraded [] = pos 0
  first_degraded ((level, res) ∷ more) =
      let rest = first_degraded more in if degraded res then level else rest

  abbrev pub all_ok : List (ℤ × A) → List (ℤ × Result Error A)
  all_ok [] = []
  all_ok ((level, res) ∷ more) = (level, ok res) ∷ all_ok more

  abbrev pub marked : List (ℤ × A) → List (ℤ × Bool)
  marked [] = []
  marked ((level, res) ∷ more) = (level, degraded res) ∷ marked more

  abbrev pub AreSome : List (ℤ × A) → Type 0
  AreSome [] = Unit
  AreSome ((level, res) ∷ more) = (is_zero level ≡ false) × AreSome more

  found_before :
      (levels : List (ℤ × A)) (at : ℤ)
      → is_zero at ≡ false
      → run_levels (all_ok levels) at ≡ ok (marked levels, at)
  unfolding run_levels
  found_before [] at h = refl
  found_before ((level, res) ∷ more) at h = elim (Bool-cases (degraded res)) [
    | inl worse ↦ rw (worse, h, found_before more at h) refl
    | inr fine ↦ rw (fine, found_before more at h) refl
  ]

  pub run_levels-first_degraded :
      (levels : List (ℤ × A))
      → AreSome levels
      → run_levels (all_ok levels) (pos 0) ≡ ok (marked levels, first_degraded levels)
  unfolding run_levels
  run_levels-first_degraded [] h = refl
  run_levels-first_degraded ((level, res) ∷ more) h = elim (Bool-cases (degraded res)) [
    | inl worse ↦ rw (worse, found_before more level (h.0)) refl
    | inr fine ↦ rw (fine, run_levels-first_degraded more (h.1)) refl
  ]
