-- ===== src/State/Boot.antt =====
-- `InitStations` where no client is registered.
use snowcast.Prelude.{
  ℕ, zero, suc, ◌≡◌, refl, ap, fun_ext, Text, ℤ, pos, negsuc, none, List, [], ◌∷◌, map, get_elem?,
  count, arith,
}
use snowcast.State.Store.{State, lookup, init_stations}
use snowcast.State.Stations.{clients_of}
use snowcast.State.Effects.{count_at}
use snowcast.State.Invariant.{IsConsistent}
use snowcast.State.Roster.{roster}

nobody_listens :
    (files : List Text) (i : ℕ)
    → clients_of (get_elem? (map (λ path. record { clients = []; name = path }) files) i) ≡ []
nobody_listens [] i = refl
nobody_listens (f ∷ files) zero = refl
nobody_listens (f ∷ files) (suc i) = nobody_listens files i

module _ (files : List Text) (s : State) (empty : s.current_clients ≡ []) where
  unlisted : (p : ℕ) (y : ℤ) → count_at (init_stations files s) p y ≡ 0
  unfolding init_stations
  unlisted p (pos i) = ap (count p) (nobody_listens files i)
  unlisted p (negsuc i) = refl

  nobody : (k : Text) → lookup k (init_stations files s).current_clients ≡ none
  unfolding init_stations lookup
  nobody k = rw empty refl

  pub init_stations-IsConsistent : IsConsistent (init_stations files s)
  init_stations-IsConsistent = record {
    allocated = λ k p e. absurd (ground (arith, nobody k));
    unaliased = λ j k p e f. absurd (ground (arith, nobody j));
    placed = λ k p e. absurd (ground (arith, nobody k));
    registered = λ p y n. absurd (omega (arith, unlisted p y));
    open_chan = λ k p e. absurd (ground (arith, nobody k));
  }

  pub roster-init_stations : roster (init_stations files s) ≡ (λ k. none)
  unfolding roster
  roster-init_stations = fun_ext λ k. rw (nobody k) refl
