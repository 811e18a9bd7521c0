-- ===== src/Client/Input.antt =====
-- The input of cmd/snowcast_control/main.go: `checkOnlyNumbers`, and what it takes from strings and strconv. A
-- text is here its runes.
use snowcast.Prelude.{
  ℕ, ◌+◌, ◌*◌, ◌-◌, Text, Bool, true, [], ◌∷◌, ◌&&◌, ◌||◌, leb, ltb, is_decimal, if◌then◌else◌,
}
use snowcast.Runtime.Operator.{is_space}

-- `unicode.IsDigit`, of which `other_digit` has the runes that are not ASCII; `is_decimal` has the digits of `strconv`.
abbrev pub is_digit : (other_digit : ℕ → Bool) → ℕ → Bool
is_digit other_digit r = is_decimal r || (leb 128 r && other_digit r)

unfoldable pub check_only_numbers : (other_digit : ℕ → Bool) → Text → Bool
check_only_numbers other_digit [] = true
check_only_numbers other_digit (r ∷ rs) =
    is_digit other_digit r && check_only_numbers other_digit rs

pub data NumError : Type 0 where
  no_error : NumError
  syntax_error : NumError
  range_error : NumError

-- The loop of `strconv.ParseUint(s, 10, 16)`, with its value after an error.
unfoldable pub parse_digits : ℕ → Text → ℕ × NumError
parse_digits n [] = (n, no_error)
parse_digits n (c ∷ cs) =
    let rest = parse_digits (n * 10 + (c - 48)) cs in
    if is_decimal c
    then (if ltb 65535 (n * 10 + (c - 48)) then (65535, range_error) else rest)
    else (0, syntax_error)

unfoldable pub parse_uint16 : Text → ℕ × NumError
unfolding parse_digits
parse_uint16 [] = (0, syntax_error)
parse_uint16 (c ∷ cs) = parse_digits 0 (c ∷ cs)

-- `strings.TrimSpace`, with the spaces of `strings.Fields`.
abbrev pub trim_left : Text → Text
trim_left [] = []
trim_left (b ∷ bs) = let rest = trim_left bs in if is_space b then rest else b ∷ bs

abbrev pub trim_right : Text → Text
trim_right [] = []
trim_right (b ∷ bs) = elim (trim_right bs) [
  | [] ↦ if is_space b then [] else b ∷ []
  | c ∷ cs ↦ b ∷ c ∷ cs
]

abbrev pub trim_space : Text → Text
trim_space s = trim_right (trim_left s)
