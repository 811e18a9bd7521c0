-- ===== src/State/Effects.antt =====
-- What the steps of the operations do to the stations' lists, in counts.
use snowcast.Prelude.{
  Text, get_elem?-set, ℕ, ◌+◌, ◌≡◌, zero, suc, refl, ap, ◌⊎◌, inl, inr, ℤ, pos, negsuc, minus_one,
  int_eq, int_eq_iff, true, false, ◌&&◌, Option, none, some, List, [], arith, length, get_elem?,
  count, count-snoc, ltb, ◌==◌, if◌then◌else◌, Bool-cases, ◌++◌, ◌∷◌,
}
use snowcast.Run.{Ends, ends, Ends-bind}
use snowcast.State.Store.{State, Station, station_at, in_range, write_clients, swap_remove}
use snowcast.State.Apply.{remove_from_current_station, append_client, append_in_range}
use snowcast.State.Stations.{clients_at, clients_at-set, length-set_station_at, count-swap_remove}

-- The client at `p` stands once in the list of its station and in no other list.
pub record IsPlaced (p : ℕ) (s : State) : Type 0 where
  pub stationed :
      ((s.heap p).curr_station ≡ minus_one)
      ⊎ (in_range (s.heap p).curr_station s.station_list ≡ true)
  pub listed :
      (y : ℤ)
      → count p (clients_at s.station_list y)
        ≡ (if int_eq (s.heap p).curr_station y && in_range y s.station_list then 1 else 0)

-- The name of a station, which no operation changes.
abbrev pub name_of : Option Station → Option Text
name_of none = none
name_of (some st) = some st.name

abbrev pub name_at : List Station → ℤ → Option Text
name_at l z = name_of (station_at l z)

-- Only the stations' lists changed, and `n q y` says how often `q` stands in the list of `y` now.
pub record Relisted (n : ℕ → ℤ → ℕ) (s t : State) : Type 0 where
  pub heap : t.heap ≡ s.heap
  pub next : t.next ≡ s.next
  pub current_clients : t.current_clients ≡ s.current_clients
  pub length : length t.station_list ≡ length s.station_list
  pub names : (y : ℤ) → name_at t.station_list y ≡ name_at s.station_list y
  pub counts : (q : ℕ) (y : ℤ) → count q (clients_at t.station_list y) ≡ n q y

abbrev pub count_at : State → ℕ → ℤ → ℕ
count_at s q y = count q (clients_at s.station_list y)

-- `n` with the entries of `p` taken out.
abbrev pub without : ℕ → (ℕ → ℤ → ℕ) → ℕ → ℤ → ℕ
without p n q y = if q == p then 0 else n q y

pub in_range-length :
    (z : ℤ) (l m : List Station) → length l ≡ length m → in_range z l ≡ in_range z m
in_range-length (pos i) l m e = ap (ltb i) e
in_range-length (negsuc i) l m e = refl

get_elem?-some :
    (l : List Station) (i : ℕ)
    → ltb i (length l) ≡ true
    → (st : Station) × (get_elem? l i ≡ some st)
get_elem?-some [] i h = absurd (ground arith)
get_elem?-some (x ∷ xs) zero h = (x, refl)
get_elem?-some (x ∷ xs) (suc i) h = get_elem?-some xs i (ground arith)

pub station_at-in_range :
    (z : ℤ) (l : List Station) → in_range z l ≡ true → (st : Station) × (station_at l z ≡ some st)
station_at-in_range (negsuc i) l h = absurd (ground arith)
station_at-in_range (pos i) l h = get_elem?-some l i h

count_at-write :
    (s : State) (z : ℤ) (st : Station) (cs : List ℕ) (q : ℕ) (y : ℤ)
    → count_at (write_clients z st cs s) q y
      ≡ (if int_eq z y && in_range z s.station_list then count q cs else count_at s q y)
count_at-write s z st cs q y =
    rw (clients_at-set s.station_list z y (record st { clients = cs })) (ground arith)

name_at-write :
    (s : State) (z : ℤ) (st : Station) (cs : List ℕ)
    → station_at s.station_list z ≡ some st
    → (y : ℤ) → name_at (write_clients z st cs s).station_list y ≡ name_at s.station_list y
name_at-write s (negsuc i) st cs e y = refl
name_at-write s (pos i) st cs e (negsuc j) = refl
name_at-write s (pos i) st cs e (pos j) =
    ground (arith, get_elem?-set s.station_list i j (record st { clients = cs }))

pub off_air : (y : ℤ) (l : List Station) → (int_eq minus_one y && in_range y l) ≡ false
off_air (pos i) l = refl
off_air (negsuc i) l = ground arith

-- With the station's list known, the removal empties the entry of `p` there, and it has no other.
removed_counts :
    (p : ℕ) (s : State) (z : ℤ) (st : Station)
    → station_at s.station_list z ≡ some st
    → in_range z s.station_list ≡ true
    → ((y : ℤ) → count_at s p y ≡ (if int_eq z y && in_range y s.station_list then 1 else 0))
    → (q : ℕ) (y : ℤ)
    → count_at (write_clients z st (swap_remove p st.clients) s) q y ≡ without p (count_at s) q y
removed_counts p s z st e within listed q y =
    let old : count_at s q z ≡ count q st.clients = rw e in
    let mine : count_at s p z ≡ count p st.clients = rw e in
    rw (count_at-write s z st (swap_remove p st.clients) q y, count-swap_remove q p st.clients)
      (elim (Bool-cases (int_eq z y)) [
        | inl same ↦
            let zy = (int_eq_iff z y).0 same in
            let zz = (int_eq_iff z z).1 refl in
            let moved : count_at s q z ≡ count_at s q y = ap (count_at s q) zy in
            rw (same, within) (ground (arith, listed z))
        | inr other ↦ rw other (ground (arith, listed y))
      ])

pub remove-Relisted :
    (p : ℕ) (s : State)
    → IsPlaced p s
    → Ends (λ _ t. Relisted (without p (count_at s)) s t) (remove_from_current_station p s)
unfolding remove_from_current_station
remove-Relisted p s h = elim (Bool-cases (int_eq (s.heap p).curr_station minus_one)) [
  | inl nowhere ↦
      let e = (int_eq_iff (s.heap p).curr_station minus_one).0 nowhere in
      rw nowhere (
        ends (record {
          heap = refl;
          next = refl;
          current_clients = refl;
          length = refl;
          names = λ y. refl;
          counts = λ q y. ground (arith, rw e at (h.listed y), off_air y s.station_list);
        }))
  | inr somewhere ↦
      let z = (s.heap p).curr_station in
      let within : in_range z s.station_list ≡ true =
        ground (arith, h.stationed, int_eq_iff z minus_one) in
      let (st, e) = station_at-in_range z s.station_list within in
      rw (somewhere, e)
        (ends (record {
          heap = refl;
          next = refl;
          current_clients = refl;
          length = length-set_station_at s.station_list z _;
          names = name_at-write s z st _ e;
          counts = λ q y. removed_counts p s z st e within h.listed q y;
        }))
]

-- `n` with one more entry of `p` for the station `z`, if there is such a station.
abbrev pub with_client : ℕ → ℤ → List Station → (ℕ → ℤ → ℕ) → ℕ → ℤ → ℕ
with_client p z l n q y = n q y + (if q == p && (int_eq z y && in_range z l) then 1 else 0)

appended_counts :
    (p : ℕ) (s : State) (z : ℤ) (st : Station)
    → station_at s.station_list z ≡ some st
    → in_range z s.station_list ≡ true
    → (q : ℕ) (y : ℤ)
    → count_at (write_clients z st (st.clients ++ p ∷ []) s) q y
      ≡ with_client p z s.station_list (count_at s) q y
appended_counts p s z st e within q y =
    let old : count_at s q z ≡ count q st.clients = rw e in
    rw (count_at-write s z st (st.clients ++ p ∷ []) q y, count-snoc q p st.clients, within)
      (elim (Bool-cases (int_eq z y)) [
        | inl same ↦
            let moved : count_at s q z ≡ count_at s q y =
              ap (count_at s q) ((int_eq_iff z y).0 same) in
            rw same (ground arith)
        | inr other ↦ rw other (ground arith)
      ])

pub append-Relisted :
    (z : ℤ) (p : ℕ) (s : State)
    → in_range z s.station_list ≡ true
    → Ends
        (λ name t.
          Relisted (with_client p z s.station_list (count_at s)) s t
          × (name_at s.station_list z ≡ some name))
        (append_client z p s)
unfolding append_client
append-Relisted z p s within =
    let (st, e) = station_at-in_range z s.station_list within in
    rw (e, append_client)
      (ends (
        record {
          heap = refl;
          next = refl;
          current_clients = refl;
          length = length-set_station_at s.station_list z _;
          names = name_at-write s z st _ e;
          counts = appended_counts p s z st e within;
        },
        refl,
      ))

pub append_in_range-Relisted :
    (z : ℤ) (p : ℕ) (s : State)
    → Ends
        (λ _ t. Relisted (with_client p z s.station_list (count_at s)) s t)
        (append_in_range z p s)
unfolding append_in_range
append_in_range-Relisted z p s = elim (Bool-cases (in_range z s.station_list)) [
  | inl within ↦ rw within (Ends-bind (append-Relisted z p s within) (λ name t h. ends h.0))
  | inr outside ↦ rw outside (
      ends (record {
        heap = refl;
        next = refl;
        current_clients = refl;
        length = refl;
        names = λ y. refl;
        counts = λ q y. ground arith;
      }))
]
