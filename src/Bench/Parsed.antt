-- ===== src/Bench/Parsed.antt =====
-- The lists that `parseIntList` reads back.
use snowcast.Prelude.{
  ℕ, ◌^◌, ◌<◌, ◌≡◌, refl, sym, ap, ◌∙◌, Text, ℤ, pos, true, false, some, List, [], ◌∷◌, ◌++◌, map,
  arith, ltb, ◌==◌, text_eq, text_eq-cons_nil, decimal, decimal-cons, value, value-decimal,
  all_decimal, all_decimal-decimal,
}
use snowcast.Runtime.Operator.{is_space}
use snowcast.Client.Input.{trim_space, trim_right}
use snowcast.Bench.Flags.{split, atoi, parse_parts, parse_int_list}

-- Numbers with commas between them.
abbrev pub commas : ℕ → List ℕ → Text
commas n [] = decimal n
commas n (m ∷ ns) = decimal n ++ 44 ∷ commas m ns

split-comma : (s t : Text) → all_decimal s ≡ true → split (s ++ 44 ∷ t) ≡ s ∷ split t
split-comma [] t digits = refl
split-comma (c ∷ cs) t digits =
    let other : (c == 44) ≡ false = ground (arith, digits) in
    rw (other, split-comma cs t (ground (arith, digits))) refl

split-last : (s : Text) → all_decimal s ≡ true → split s ≡ s ∷ []
split-last [] digits = refl
split-last (c ∷ cs) digits =
    let other : (c == 44) ≡ false = ground (arith, digits) in
    rw (other, split-last cs (ground (arith, digits))) refl

trim_right-decimal : (s : Text) → all_decimal s ≡ true → trim_right s ≡ s
trim_right-decimal [] digits = refl
trim_right-decimal (c ∷ []) digits = ground (arith, digits)
trim_right-decimal (c ∷ d ∷ cs) digits =
    rw (trim_right-decimal (d ∷ cs) (ground (arith, digits))) refl

trim_space-decimal :
    (c : ℕ) (cs : Text) → all_decimal (c ∷ cs) ≡ true → trim_space (c ∷ cs) ≡ c ∷ cs
trim_space-decimal c cs digits =
    let no_space : is_space c ≡ false = ground (arith, digits) in
    rw no_space (trim_right-decimal (c ∷ cs) digits)

atoi-decimal : (n : ℕ) → n < 2 ^ 63 → atoi (decimal n) ≡ some (pos n)
atoi-decimal n h =
    let (c, cs, e) = decimal-cons n in
    let digits : all_decimal (c ∷ cs) ≡ true = rw e at (all_decimal-decimal n) in
    let no_minus : (c == 45) ≡ false = ground (arith, digits) in
    let no_plus : (c == 43) ≡ false = ground (arith, digits) in
    let number : value 0 (c ∷ cs) ≡ n = ap (value 0) (sym e) ∙ value-decimal n in
    let fits : ltb n (2 ^ 63) ≡ true = ground arith in
    rw (e, no_minus, no_plus, digits, number, fits) refl

parse_parts-decimal :
    (n : ℕ) (parts : List Text)
    → n < 2 ^ 63
    → parse_parts (decimal n ∷ parts) ≡ pos n ∷ parse_parts parts
unfolding parse_parts
parse_parts-decimal n parts h =
    let (c, cs, e) = decimal-cons n in
    let trimmed : trim_space (decimal n) ≡ decimal n =
      rw e (trim_space-decimal c cs (rw e at (all_decimal-decimal n))) in
    let some_text : text_eq (decimal n) [] ≡ false = rw (e, text_eq-cons_nil c cs) refl in
    rw (trimmed, some_text, atoi-decimal n h) refl

abbrev pub AreInts : List ℕ → Type 0
AreInts [] = Unit
AreInts (n ∷ ns) = (n < 2 ^ 63) × AreInts ns

parse_parts-commas :
    (n : ℕ) (ns : List ℕ)
    → AreInts (n ∷ ns)
    → parse_parts (split (commas n ns)) ≡ pos n ∷ map pos ns
unfolding parse_parts
parse_parts-commas n [] h =
    rw (split-last (decimal n) (all_decimal-decimal n)) (parse_parts-decimal n [] (h.0))
parse_parts-commas n (m ∷ ns) h =
    rw (split-comma (decimal n) (commas m ns) (all_decimal-decimal n)) (
      parse_parts-decimal n (split (commas m ns)) (h.0)
      ∙ ap (λ zs. pos n ∷ zs) (parse_parts-commas m ns (h.1)))

some_commas : (n : ℕ) (ns : List ℕ) → text_eq (commas n ns) [] ≡ false
some_commas n [] = let (c, cs, e) = decimal-cons n in rw (e, text_eq-cons_nil c cs) refl
some_commas n (m ∷ ns) =
    let (c, cs, e) = decimal-cons n in rw (e, text_eq-cons_nil c (cs ++ 44 ∷ commas m ns)) refl

-- A text that is a list of numbers below 2^63 in decimal, with commas between them, is read back by
-- parseIntList as these numbers, whatever the default.
pub parse_int_list-commas :
    (n : ℕ) (ns : List ℕ) (def : List ℤ)
    → AreInts (n ∷ ns)
    → parse_int_list (commas n ns) def ≡ pos n ∷ map pos ns
unfolding parse_int_list
parse_int_list-commas n ns def h = rw (some_commas n ns, parse_parts-commas n ns h) refl
