-- ===== src/State/Allocate.antt =====
-- A client record that nobody refers to changes nothing that the operations see.
use snowcast.Prelude.{ℕ, ◌+◌, ◌≡◌, fun_ext, Text, some, arith, ◌==◌, false}
use snowcast.State.Store.{State, ClientInfo, lookup, update}
use snowcast.State.Effects.{IsPlaced}
use snowcast.State.Invariant.{IsConsistent}
use snowcast.State.Roster.{roster}

abbrev pub allocate : ClientInfo → State → State
allocate c s = record s { heap = update s.heap s.next c; next = s.next + 1 }

module _ (c : ClientInfo) (s : State) (h : IsConsistent s) where
  apart : (k : Text) (p : ℕ) → lookup k s.current_clients ≡ some p → (s.next == p) ≡ false
  apart k p e = ground (arith, h.allocated k p e)

  IsPlaced-allocate : (p : ℕ) → (s.next == p) ≡ false → IsPlaced p s → IsPlaced p (allocate c s)
  IsPlaced-allocate p ne at = record {
    stationed = rw ne at.stationed;
    listed = λ y. rw ne (at.listed y);
  }

  pub IsConsistent-allocate : IsConsistent (allocate c s)
  IsConsistent-allocate = record {
    allocated = λ k p e. omega (arith, h.allocated k p e);
    unaliased = h.unaliased;
    placed = λ k p e. IsPlaced-allocate p (apart k p e) (h.placed k p e);
    registered = h.registered;
    open_chan = λ k p e. rw (apart k p e) (h.open_chan k p e);
  }

  pub roster-allocate : roster (allocate c s) ≡ roster s
  unfolding roster
  roster-allocate = fun_ext λ k. ground (arith, h.allocated k s.next)
