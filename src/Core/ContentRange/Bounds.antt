-- ===== src/Core/ContentRange/Bounds.antt =====
-- What a Content-Range that is accepted says.
use lunefetch.Base.{◌==◌, ℕ, List, [], ◌∷◌, Option, none, some, ◌||◌, arith, Bool-cases, inl, inr}
use lunefetch.Base.Int64.{ℤ, pos, ltb_ℤ, leb_ℤ, ◌≤ℤ◌, ◌<ℤ◌}
use lunefetch.Core.ContentRange.{
  checked_range, of_bounds, of_parts, of_value, bytes_unit, cut_prefix, split, parse_int,
  parse_content_range,
}

-- A range that is not empty, from a byte of the file to a byte of the file.
abbrev pub IsRange : ℤ × ℤ × ℤ → Type 0
IsRange (start, end, total) = (pos 0 ≤ℤ start) × (start ≤ℤ end) × (end <ℤ total)

abbrev pub AllRange : Option (ℤ × ℤ × ℤ) → Type 0
AllRange none = Unit
AllRange (some r) = IsRange r

checked_range-AllRange : (a b c : Option ℤ) → AllRange (checked_range a b c)
checked_range-AllRange none b c = tt
checked_range-AllRange (some s) none c = tt
checked_range-AllRange (some s) (some e) none = tt
checked_range-AllRange (some s) (some e) (some t) =
    elim (Bool-cases (ltb_ℤ s (pos 0) || ltb_ℤ e s || leb_ℤ t e)) [
      | inl bad ↦ rw bad tt
      | inr good ↦ rw good (ground arith, ground arith, ground arith)
    ]

of_bounds-AllRange : (bs : List (List ℕ)) (total : List ℕ) → AllRange (of_bounds bs total)
of_bounds-AllRange [] total = tt
of_bounds-AllRange (a ∷ []) total = tt
of_bounds-AllRange (a ∷ b ∷ []) total =
    checked_range-AllRange (parse_int a) (parse_int b) (parse_int total)
of_bounds-AllRange (a ∷ b ∷ c ∷ cs) total = tt

of_parts-AllRange : (ps : List (List ℕ)) → AllRange (of_parts ps)
of_parts-AllRange [] = tt
of_parts-AllRange (p ∷ []) = tt
of_parts-AllRange (p ∷ q ∷ r ∷ rs) = tt
of_parts-AllRange (p ∷ [] ∷ []) = of_bounds-AllRange (split 45 p) []
of_parts-AllRange (p ∷ (c ∷ d ∷ ds) ∷ []) = of_bounds-AllRange (split 45 p) (c ∷ d ∷ ds)
of_parts-AllRange (p ∷ (c ∷ []) ∷ []) = elim (Bool-cases (c == 42)) [
  | inl star ↦ rw star tt
  | inr other ↦ rw other (of_bounds-AllRange (split 45 p) (c ∷ []))
]

of_value-AllRange : (o : Option (List ℕ)) → AllRange (of_value o)
of_value-AllRange none = tt
of_value-AllRange (some cs) = of_parts-AllRange (split 47 cs)

-- Whatever the header says: parseContentRange fails, or answers a range that is not empty and lies
-- in a file of the total size.
pub parse_content_range-AllRange : (value : List ℕ) → AllRange (parse_content_range value)
unfolding parse_content_range
parse_content_range-AllRange value = of_value-AllRange (cut_prefix bytes_unit value)
