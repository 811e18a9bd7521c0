-- ===== src/State/Stations.antt =====
-- A station's list after a removal or an append, counted by client.
use native.Mathlib.Numerals.{add-one}
use snowcast.Prelude.{
  Bool-cases, inl, inr, ℕ, zero, suc, ◌+◌, ◌-◌, ◌≡◌, refl, ap, sym, ◌∙◌, ℤ, pos, negsuc, int_eq,
  Option, none, some, List, [], ◌∷◌, ◌&&◌, arith, length, length-set, get_elem?, get_elem?-set, set,
  take, count, ◌==◌, if◌then◌else◌, Option-cases,
}
use snowcast.State.Store.{
  Station, station_at, set_station_at, in_range, find_index, last_or, swap_remove,
}

get_elem?-suc : (q : ℕ) (qs : List ℕ) (i : ℕ) → get_elem? (q ∷ qs) (i + 1) ≡ get_elem? qs i
get_elem?-suc q qs i = rw add-one

find_index-get : (p : ℕ) (qs : List ℕ) {i : ℕ} → find_index p qs ≡ some i → get_elem? qs i ≡ some p
unfolding find_index
find_index-get p [] h = cc
find_index-get p (q ∷ qs) h = elim (Bool-cases (q == p)) [
  | inl here ↦ ground arith
  | inr later ↦ elim (Option-cases (find_index p qs)) [
    | inl missing ↦ ground arith
    | inr (j, found) ↦ let e = get_elem?-suc q qs j in ground (arith, find_index-get p qs found)
  ]
]

count-find_none : (p : ℕ) (qs : List ℕ) → find_index p qs ≡ none → count p qs ≡ 0
unfolding find_index
count-find_none p [] h = refl
count-find_none p (q ∷ qs) h = ground (arith, count-find_none p qs)

count-set :
    (q p v : ℕ) (qs : List ℕ) (i : ℕ)
    → get_elem? qs i ≡ some p
    → count q (set qs i v) + (if q == p then 1 else 0) ≡ count q qs + (if q == v then 1 else 0)
count-set q p v [] i h = ground arith
count-set q p v (x ∷ xs) zero h = ground arith
count-set q p v (x ∷ xs) (suc i) h = ground (arith, count-set q p v xs i h)

last_or-last_or : (x : ℕ) (xs : List ℕ) → last_or (last_or x xs) xs ≡ last_or x xs
last_or-last_or x [] = refl
last_or-last_or x (y ∷ ys) = refl

last_or-set : (d : ℕ) (xs : List ℕ) (i : ℕ) → last_or d (set xs i (last_or d xs)) ≡ last_or d xs
last_or-set d [] i = refl
last_or-set d (x ∷ xs) zero = last_or-last_or x xs
last_or-set d (x ∷ xs) (suc i) = last_or-set x xs i

count-take :
    (q d x : ℕ) (xs : List ℕ)
    → count q (take (length xs) (x ∷ xs)) + (if q == last_or x xs then 1 else 0) ≡ count q (x ∷ xs)
count-take q d x [] = ground arith
count-take q d x (y ∷ ys) = ground (arith, count-take q d y ys)

set-cons : (x v : ℕ) (xs : List ℕ) (i : ℕ) → (y : ℕ) × (ys : List ℕ) × (set (x ∷ xs) i v ≡ y ∷ ys)
set-cons x v xs zero = (v, xs, refl)
set-cons x v xs (suc i) = (x, set xs i v, refl)

removed_at :
    (q p x : ℕ) (xs : List ℕ) (i : ℕ)
    → get_elem? (x ∷ xs) i ≡ some p
    → count q (take (suc (length xs) - 1) (set (x ∷ xs) i (last_or x xs)))
      ≡ (if q == p then count p (x ∷ xs) - 1 else count q (x ∷ xs))
removed_at q p x xs i h =
    let v = last_or x xs in
    let (y, ys, e) = set-cons x v xs i in
    let len : length ys ≡ length xs = omega (arith, ap length e, length-set (x ∷ xs) i v) in
    let one : suc (length xs) - 1 ≡ length ys = omega arith in
    let end : last_or y ys ≡ v = sym (ap (last_or p) e) ∙ last_or-set p (x ∷ xs) i in
    rw (one, e)
      (ground (arith, count-take q p y ys, count-set q p v (x ∷ xs) i h, ap (count q) e, end))

-- Removing a client from a station's list takes away one occurrence of it, if there is one, and no
-- other client.
pub count-swap_remove :
    (q p : ℕ) (qs : List ℕ)
    → count q (swap_remove p qs) ≡ (if q == p then count p qs - 1 else count q qs)
unfolding swap_remove
count-swap_remove q p [] = ground arith
count-swap_remove q p (x ∷ xs) = elim (Option-cases (find_index p (x ∷ xs))) [
  | inl missing ↦ rw (missing, swap_remove) (ground (arith, count-find_none p (x ∷ xs)))
  | inr (i, found) ↦
      rw (found, swap_remove) (removed_at q p x xs i (find_index-get p (x ∷ xs) found))
]

-- The clients at a station, none where there is no such station.
abbrev pub clients_of : Option Station → List ℕ
clients_of none = []
clients_of (some st) = st.clients

abbrev pub clients_at : List Station → ℤ → List ℕ
clients_at l z = clients_of (station_at l z)

pub clients_at-set :
    (l : List Station) (z y : ℤ) (st : Station)
    → clients_at (set_station_at l z st) y
      ≡ (if int_eq z y && in_range z l then st.clients else clients_at l y)
clients_at-set l (pos i) (pos j) st = ground (arith, get_elem?-set l i j st)
clients_at-set l (pos i) (negsuc j) st = refl
clients_at-set l (negsuc i) y st = ground arith

pub length-set_station_at :
    (l : List Station) (z : ℤ) (st : Station) → length (set_station_at l z st) ≡ length l
length-set_station_at l (pos i) st = length-set l i st
length-set_station_at l (negsuc i) st = refl
