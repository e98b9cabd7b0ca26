-- ===== src/Core/ContentRange.antt =====
-- parseContentRange of internal/core/downloader.go, on texts as lists of bytes, with what it uses of
-- `strings` and `strconv`.
pub mod Bounds
use lunefetch.Base.{
  ℕ, zero, suc, ◌+◌, ◌-◌, ◌*◌, ◌^◌, ◌==◌, if◌then◌else◌, List, [], ◌∷◌, Option, none, some, Bool,
  true, false, ◌&&◌, ◌||◌, not, ltb, leb,
}
use lunefetch.Base.Int64.{ℤ, pos, sub_ℕ, ltb_ℤ, leb_ℤ}

-- strings.TrimPrefix of a value that has the prefix, and `none` for one that has not.
unfoldable pub cut_prefix : List ℕ → List ℕ → Option (List ℕ)
cut_prefix [] cs = some cs
cut_prefix (p ∷ ps) [] = none
cut_prefix (p ∷ ps) (c ∷ cs) = if p == c then cut_prefix ps cs else none

abbrev push : ℕ → List (List ℕ) → List (List ℕ)
push c [] = (c ∷ []) ∷ []
push c (p ∷ ps) = (c ∷ p) ∷ ps

-- strings.Split by one byte.
unfoldable pub split : ℕ → List ℕ → List (List ℕ)
split sep [] = [] ∷ []
split sep (c ∷ cs) = if c == sep then [] ∷ split sep cs else push c (split sep cs)

-- The value of decimal digits after those that make `acc`.
unfoldable pub digits : ℕ → List ℕ → Option ℕ
digits acc [] = some acc
digits acc (c ∷ cs) = if leb 48 c && leb c 57 then digits (acc * 10 + (c - 48)) cs else none

abbrev unsigned : List ℕ → Option ℕ
unsigned [] = none
unsigned (c ∷ cs) = digits 0 (c ∷ cs)

abbrev in_range : Bool → Option ℕ → Option ℤ
in_range negative none = none
in_range false (some n) = if ltb n (2 ^ 63) then some (pos n) else none
in_range true (some n) = if leb n (2 ^ 63) then some (sub_ℕ 0 n) else none

-- strconv.ParseInt(_, 10, 64): a sign, and one digit at least.
unfoldable pub parse_int : List ℕ → Option ℤ
unfolding digits
parse_int [] = none
parse_int (c ∷ cs) =
    if c == 43
    then in_range false (unsigned cs)
    else if c == 45
    then in_range true (unsigned cs)
    else in_range false (digits 0 (c ∷ cs))

-- "bytes "
abbrev pub bytes_unit : List ℕ
bytes_unit = 98 ∷ 121 ∷ 116 ∷ 101 ∷ 115 ∷ 32 ∷ []

abbrev is_star : List ℕ → Bool
is_star (c ∷ []) = c == 42
is_star _ = false

abbrev pub checked_range : Option ℤ → Option ℤ → Option ℤ → Option (ℤ × ℤ × ℤ)
checked_range (some start) (some end) (some total) =
    if ltb_ℤ start (pos 0) || ltb_ℤ end start || leb_ℤ total end
    then none
    else some (start, end, total)
checked_range _ _ _ = none

-- The two parts around `-`, and the total.
abbrev pub of_bounds : List (List ℕ) → List ℕ → Option (ℤ × ℤ × ℤ)
of_bounds (a ∷ b ∷ []) total = checked_range (parse_int a) (parse_int b) (parse_int total)
of_bounds _ total = none

-- The two parts around `/`.
abbrev pub of_parts : List (List ℕ) → Option (ℤ × ℤ × ℤ)
of_parts (range ∷ total ∷ []) = if is_star total then none else of_bounds (split 45 range) total
of_parts _ = none

abbrev pub of_value : Option (List ℕ) → Option (ℤ × ℤ × ℤ)
of_value none = none
of_value (some cs) = of_parts (split 47 cs)

unfoldable pub parse_content_range : List ℕ → Option (ℤ × ℤ × ℤ)
unfolding cut_prefix split parse_int
parse_content_range value = of_value (cut_prefix bytes_unit value)
