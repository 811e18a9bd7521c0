-- ===== src/State/Invariant.antt =====
-- What holds of the clients and the stations between two operations.
use snowcast.Prelude.{ℕ, ◌<◌, ◌≡◌, refl, Text, ℤ, false, some, arith, zero, suc}
use snowcast.State.Store.{State, lookup}
use snowcast.State.Effects.{IsPlaced, count_at}

pub record IsConsistent (s : State) : Type 0 where
  pub allocated : (k : Text) (p : ℕ) → lookup k s.current_clients ≡ some p → p < s.next
  pub unaliased :
      (j k : Text) (p : ℕ)
      → lookup j s.current_clients ≡ some p
      → lookup k s.current_clients ≡ some p
      → j ≡ k
  pub placed : (k : Text) (p : ℕ) → lookup k s.current_clients ≡ some p → IsPlaced p s
  pub registered :
      (p : ℕ) (y : ℤ) → 0 < count_at s p y → (k : Text) × (lookup k s.current_clients ≡ some p)
  pub open_chan :
      (k : Text) (p : ℕ)
      → lookup k s.current_clients ≡ some p
      → (s.heap p).event_chan.closed ≡ false

-- An address that is not in use stands in no list.
pub count-fresh : {s : State} → IsConsistent s → (y : ℤ) → count_at s s.next y ≡ 0
count-fresh {s} h y = zero_of (count_at s s.next y) (λ some_there.
    let (k, found) = h.registered s.next y some_there in
    absurd (omega (arith, h.allocated k s.next found)))
  where
    zero_of : (n : ℕ) → (0 < n → ⊥) → n ≡ 0
    zero_of zero none_there = refl
    zero_of (suc n) none_there = absurd (none_there (omega arith))
