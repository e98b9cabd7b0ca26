-- ===== src/Core/Names.antt =====
-- ValidateFilename of internal/core/downloader.go, on texts as lists of code points, with what it uses
-- of `strings`, `unicode` and `path/filepath` on Unix. A text that is not UTF-8 is not modelled.
use lunefetch.Base.{
  ℕ, ◌+◌, ◌-◌, ◌==◌, if◌then◌else◌, List, [], ◌∷◌, Option, none, some, Bool, true, false, ◌&&◌,
  ◌||◌, ltb, leb, contains, map,
}

abbrev pub Text : Type 0
Text = List ℕ

unfoldable pub same_text : Text → Text → Bool
same_text [] [] = true
same_text [] (d ∷ ds) = false
same_text (c ∷ cs) [] = false
same_text (c ∷ cs) (d ∷ ds) = if c == d then same_text cs ds else false

abbrev pub dot : Text
dot = b'.' ∷ []

abbrev pub dot_dot : Text
dot_dot = b'.' ∷ b'.' ∷ []

-- len([]byte(name)): the bytes of the code points in UTF-8.
abbrev pub width : ℕ → ℕ
width c = if ltb c 0x80 then 1 else if ltb c 0x800 then 2 else if ltb c 0x10000 then 3 else 4

unfoldable pub byte_length : Text → ℕ
byte_length [] = 0
byte_length (c ∷ cs) = width c + byte_length cs

-- strings.ContainsAny, and the loop over the runes of the name.
unfoldable pub any_of : (ℕ → Bool) → Text → Bool
any_of p [] = false
any_of p (c ∷ cs) = if p c then true else any_of p cs

unfoldable pub has_suffix : ℕ → Text → Bool
has_suffix s [] = false
has_suffix s (c ∷ []) = c == s
has_suffix s (c ∷ d ∷ cs) = has_suffix s (d ∷ cs)

abbrev pub is_separator : ℕ → Bool
is_separator c = c == b'/' || c == 0x5c

-- unicode.IsControl
abbrev pub is_control : ℕ → Bool
is_control c = ltb c 0x20 || (leb 0x7f c && ltb c 0xa0)

-- < > : " | ? *
abbrev pub forbidden : Text
forbidden = b'<' ∷ b'>' ∷ b':' ∷ 0x22 ∷ b'|' ∷ b'?' ∷ b'*' ∷ []

unfoldable pub is_invalid : ℕ → Bool
unfolding contains
is_invalid c = c == 0 || is_control c || contains forbidden c

-- The name without filepath.Ext, that is up to its last dot, or whole if it has none.
unfoldable pub stem : Text → Text
stem [] = []
stem (c ∷ cs) = if any_of (λ d. d == b'.') cs then c ∷ stem cs else if c == b'.' then [] else c ∷ cs

-- strings.ToUpper, rune by rune; `other` are the runes beyond ASCII.
abbrev pub to_upper : (ℕ → ℕ) → ℕ → ℕ
to_upper other c = if ltb c 0x80 then if leb b'a' c && leb c b'z' then c - 32 else c else other c

-- CON, PRN, AUX, NUL
abbrev pub devices : List Text
devices =
    (b'C' ∷ b'O' ∷ b'N' ∷ [])
    ∷ (b'P' ∷ b'R' ∷ b'N' ∷ [])
    ∷ (b'A' ∷ b'U' ∷ b'X' ∷ [])
    ∷ (b'N' ∷ b'U' ∷ b'L' ∷ [])
    ∷ []

unfoldable pub is_among : Text → List Text → Bool
unfolding same_text
is_among t [] = false
is_among t (u ∷ us) = if same_text t u then true else is_among t us

-- COM1 to COM9 and LPT1 to LPT9: the fourth of four bytes is a rune of its own.
abbrev pub is_port : Text → Bool
is_port (a ∷ b ∷ c ∷ d ∷ []) =
    (same_text (a ∷ b ∷ c ∷ []) (b'C' ∷ b'O' ∷ b'M' ∷ [])
      || same_text (a ∷ b ∷ c ∷ []) (b'L' ∷ b'P' ∷ b'T' ∷ []))
    && leb b'1' d
    && leb d b'9'
is_port t = false

unfoldable pub is_reserved : (ℕ → ℕ) → Text → Bool
unfolding same_text is_among stem
is_reserved other name =
    let base = map (to_upper other) (stem name) in is_among base devices || is_port base

unfoldable pub validate_filename : (ℕ → ℕ) → Text → Option Text
unfolding same_text byte_length any_of has_suffix is_invalid is_reserved
validate_filename other name =
    if same_text name []
      || same_text name dot
      || same_text name dot_dot
      || ltb 255 (byte_length name)
    then none
    else if any_of is_separator name || has_suffix b'.' name || has_suffix b' ' name
    then none
    else if any_of is_invalid name
    then none
    else if is_reserved other name
    then none
    else some name
