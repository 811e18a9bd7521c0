-- ===== src/Prelude/Decimal.antt =====
-- `%d` of `fmt` at an unsigned number, and what keeps two texts `"%s:%d"` apart.
use Prim.Native.Nat.{ℕ, zero, suc, ◌+◌, ◌*◌, ◌-◌, ◌/◌, ◌%◌, ◌<◌}
use mathlib.Core.Path.{◌≡◌, refl, ap, sym, ◌∙◌}
use mathlib.Core.Bool.{Bool, true, false, ◌&&◌, ◌||◌}
use mathlib.Core.Logic.{inl, inr}
use mathlib.Core.Option.{Option, none, some}
use mathlib.Core.List.{[], ◌∷◌, ◌++◌}
use native.Mathlib.Omega.{arith}
use snowcast.Prelude.Tests.{ltb, leb, Bool-cases, ◌==◌, if◌then◌else◌}
use snowcast.Prelude.Strings.{Text}

-- The digits of `n`, the first one first; `n + 1` rounds are enough.
digits : ℕ → ℕ → Text
digits zero n = []
digits (suc k) n =
    let front = digits k (n / 10) in if ltb n 10 then (48 + n) ∷ [] else front ++ (48 + n % 10) ∷ []

unfoldable pub decimal : ℕ → Text
unfolding digits
decimal n = digits (suc n) n

abbrev pub value : ℕ → Text → ℕ
value acc [] = acc
value acc (d ∷ ds) = value (acc * 10 + (d - 48)) ds

value-snoc : (acc : ℕ) (ds : Text) (d : ℕ) → value acc (ds ++ d ∷ []) ≡ value acc ds * 10 + (d - 48)
value-snoc acc [] d = refl
value-snoc acc (e ∷ ds) d = value-snoc (acc * 10 + (e - 48)) ds d

value-digits : (k n : ℕ) → n < k → value 0 (digits k n) ≡ n
unfolding digits
value-digits zero n h = elim h [ ]
value-digits (suc k) n h =
    ground (arith, value-digits k (n / 10), value-snoc 0 (digits k (n / 10)) (48 + n % 10))

abbrev pub has_colon : Text → Bool
has_colon [] = false
has_colon (x ∷ xs) = x == 58 || has_colon xs

has_colon-append : (xs ys : Text) → has_colon (xs ++ ys) ≡ (has_colon xs || has_colon ys)
has_colon-append [] ys = refl
has_colon-append (x ∷ xs) ys = ground (arith, has_colon-append xs ys)

has_colon-digits : (k n : ℕ) → has_colon (digits k n) ≡ false
unfolding digits
has_colon-digits zero n = refl
has_colon-digits (suc k) n =
    ground (
      arith,
      has_colon-digits k (n / 10),
      has_colon-append (digits k (n / 10)) ((48 + n % 10) ∷ []),
    )

abbrev pub is_decimal : ℕ → Bool
is_decimal c = leb 48 c && leb c 57

abbrev pub all_decimal : Text → Bool
all_decimal [] = true
all_decimal (c ∷ cs) = is_decimal c && all_decimal cs

all_decimal-append : (xs ys : Text) → all_decimal (xs ++ ys) ≡ (all_decimal xs && all_decimal ys)
all_decimal-append [] ys = refl
all_decimal-append (x ∷ xs) ys = ground (arith, all_decimal-append xs ys)

all_decimal-digits : (k n : ℕ) → all_decimal (digits k n) ≡ true
unfolding digits
all_decimal-digits zero n = refl
all_decimal-digits (suc k) n = ground (
  arith,
  all_decimal-digits k (n / 10),
  all_decimal-append (digits k (n / 10)) ((48 + n % 10) ∷ []),
)

pub all_decimal-decimal : (n : ℕ) → all_decimal (decimal n) ≡ true
unfolding decimal
all_decimal-decimal n = all_decimal-digits (suc n) n

pub value-decimal : (n : ℕ) → value 0 (decimal n) ≡ n
unfolding decimal
value-decimal n = value-digits (suc n) n (omega arith)

snoc-cons : (xs : Text) (y : ℕ) → (c : ℕ) × (cs : Text) × (xs ++ y ∷ [] ≡ c ∷ cs)
snoc-cons [] y = (y, [], refl)
snoc-cons (x ∷ xs) y = (x, xs ++ y ∷ [], refl)

-- There is a first digit.
pub decimal-cons : (n : ℕ) → (c : ℕ) × (cs : Text) × (decimal n ≡ c ∷ cs)
unfolding decimal digits
decimal-cons n = elim (Bool-cases (ltb n 10)) [
  | inl small ↦ (48 + n, [], rw small refl)
  | inr large ↦ let (c, cs, e) = snoc-cons (digits n (n / 10)) (48 + n % 10) in (c, cs, rw large e)
]

-- Decimal texts tell numbers apart.
pub decimal-injective : (m n : ℕ) → decimal m ≡ decimal n → m ≡ n
unfolding decimal
decimal-injective m n e =
    sym (value-digits (suc m) m (omega arith))
    ∙ ap (value 0) e
    ∙ value-digits (suc n) n (omega arith)

-- A text cut at its last colon.
snoc_cut : ℕ → Option (Text × Text) → Option (Text × Text)
snoc_cut x (some (s, t)) = some (x ∷ s, t)
snoc_cut x none = none

cut : Text → Option (Text × Text)
cut [] = none
cut (x ∷ xs) = if has_colon xs then snoc_cut x (cut xs) else if x == 58 then some ([], xs) else none

cut-append : (s t : Text) → has_colon t ≡ false → cut (s ++ 58 ∷ t) ≡ some (s, t)
unfolding cut snoc_cut
cut-append [] t h = ground arith
cut-append (x ∷ s) t h = ground (arith, cut-append s t h, has_colon-append s (58 ∷ t))

some-pair :
    {s s' t t' : Text}
    → ◌≡◌ {A = Option (Text × Text)} (some (s, t)) (some (s', t'))
    → (s ≡ s') × (t ≡ t')
some-pair h = ground arith

-- What stands on both sides of the last colon is determined by the whole.
pub colon_split :
    (s s' : Text) (m n : ℕ) → s ++ 58 ∷ decimal m ≡ s' ++ 58 ∷ decimal n → (s ≡ s') × (m ≡ n)
unfolding decimal
colon_split s s' m n e =
    let parts = some-pair (
      sym (cut-append s (decimal m) (has_colon-digits (suc m) m))
      ∙ ap cut e
      ∙ cut-append s' (decimal n) (has_colon-digits (suc n) n)) in
    (parts.0, decimal-injective m n parts.1)
