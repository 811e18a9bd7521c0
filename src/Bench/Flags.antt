-- ===== src/Bench/Flags.antt =====
-- `parseIntList` of cmd/snowcast_bench/util.go, with what it takes from strings and strconv.
use snowcast.Prelude.{
  ℕ, ◌-◌, ◌^◌, Text, ℤ, pos, negsuc, Option, none, some, List, [], ◌∷◌, ◌==◌, ltb, leb, text_eq,
  value, all_decimal, if◌then◌else◌,
}
use snowcast.Run.{Result, ok, err}
use snowcast.Client.Input.{trim_space}

abbrev pub push_char : ℕ → List Text → List Text
push_char c [] = (c ∷ []) ∷ []
push_char c (part ∷ parts) = (c ∷ part) ∷ parts

-- `strings.Split(s, ",")`; 44 is the comma.
abbrev pub split : Text → List Text
split [] = [] ∷ []
split (c ∷ cs) = let rest = split cs in if c == 44 then [] ∷ rest else push_char c rest

abbrev pub unsigned : Text → Option ℕ
unsigned [] = none
unsigned (c ∷ cs) = if all_decimal (c ∷ cs) then some (value 0 (c ∷ cs)) else none

abbrev pub positive : Option ℕ → Option ℤ
positive none = none
positive (some n) = if ltb n (2 ^ 63) then some (pos n) else none

abbrev pub negative : Option ℕ → Option ℤ
negative none = none
negative (some n) =
    if n == 0 then some (pos 0) else if leb n (2 ^ 63) then some (negsuc (n - 1)) else none

-- `strconv.Atoi`, `none` for its errors; 43 and 45 are the signs.
abbrev pub atoi : Text → Option ℤ
atoi [] = none
atoi (c ∷ cs) =
    if c == 45
    then negative (unsigned cs)
    else if c == 43
    then positive (unsigned cs)
    else positive (unsigned (c ∷ cs))

-- The loop over the parts: those that are empty or no number are left out.
abbrev pub and_number : Option ℤ → List ℤ → List ℤ
and_number none rest = rest
and_number (some z) rest = z ∷ rest

unfoldable pub parse_parts : List Text → List ℤ
parse_parts [] = []
parse_parts (part ∷ parts) =
    let rest = parse_parts parts in
    let p = trim_space part in if text_eq p [] then rest else and_number (atoi p) rest

abbrev pub or_default : List ℤ → List ℤ → List ℤ
or_default [] def = def
or_default (z ∷ zs) def = z ∷ zs

unfoldable pub parse_int_list : Text → List ℤ → List ℤ
unfolding parse_parts
parse_int_list s def = if text_eq s [] then def else or_default (parse_parts (split s)) def

-- `parseDuration`, over `time.ParseDuration`.
abbrev pub parse_duration : {E D : Type 0} → (Text → Result E D) → Text → D → D
parse_duration parse s def = if text_eq s [] then def else elim (parse s) [ ok d ↦ d | err e ↦ def ]
