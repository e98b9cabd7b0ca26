-- ===== src/Core/Paths/Joined.antt =====
-- The path of SafeDownloadPath in internal/core/downloader.go is the root and the name behind it.
use mathlib.Core.Option
use lunefetch.Base.{
  ℕ, ◌≡◌, refl, sym, subst, if◌then◌else◌, [], ◌∷◌, ◌++◌, Option, none, some, Bool, true, false,
  ◌||◌, ltb, arith,
}
use lunefetch.Core.ContentRange.{split}
use lunefetch.Core.Names.{
  Text, same_text, dot, dot_dot, any_of, is_separator, has_suffix, is_invalid, is_reserved,
  byte_length, validate_filename,
}
use lunefetch.Core.Paths.{Components, enter, abs, join, placed, safe_download_path}
use lunefetch.Core.Paths.Within.{IsPlain, rel-append, escapes-plain}

split-whole : (t : Text) → any_of is_separator t ≡ false → split b'/' t ≡ t ∷ []
unfolding split any_of
split-whole [] h = refl
split-whole (c ∷ cs) h = ground (arith, split-whole cs)

-- Four checks in a row, all passed.
checks_passed :
    (a b c d : Bool) (name n : Text)
    → (if a then none else if b then none else if c then none else if d then none else some name)
      ≡ some n
    → (a ≡ false) × (b ≡ false) × (n ≡ name)
checks_passed true b c d name n h = cc
checks_passed false true c d name n h = cc
checks_passed false false true d name n h = cc
checks_passed false false false true name n h = cc
checks_passed false false false false name n h = (refl, refl, cc h)

first_three : (a b c d : Bool) → (a || b || c || d) ≡ false → (a || b || c) ≡ false
first_three a b c d h = ground arith

first_one : (a b c : Bool) → (a || b || c) ≡ false → a ≡ false
first_one a b c h = ground arith

-- What ValidateFilename admits is the name as it is: one component, and none of "", "." and "..".
pub validate_filename-one :
    (other : ℕ → ℕ) (name n : Text)
    → validate_filename other name ≡ some n
    → (n ≡ name) × (split b'/' name ≡ name ∷ []) × IsPlain name
unfolding validate_filename
validate_filename-one other name n h =
    let (special, parted, same) =
      checks_passed
        (same_text name []
          || same_text name dot
          || same_text name dot_dot
          || ltb 255 (byte_length name))
        (any_of is_separator name || has_suffix b'.' name || has_suffix b' ' name)
        (any_of is_invalid name) (is_reserved other name) name n h in
    (
      same,
      split-whole name (
          first_one (any_of is_separator name) (has_suffix b'.' name) (has_suffix b' ' name)
            parted),
      first_three (same_text name []) (same_text name dot) (same_text name dot_dot)
          (ltb 255 (byte_length name)) special,
    )

enter-plain : (r : Components) (n : Text) → IsPlain n → enter r n ≡ r ++ n ∷ []
enter-plain r n plain = ground (arith, plain)

module _ (cwd : Option Text) (root : Text) (r : Components) (at_r : abs cwd root ≡ some r) where
  join-one : (n : Text) → split b'/' n ≡ n ∷ [] → IsPlain n → join r n ≡ r ++ n ∷ []
  unfolding join
  join-one n one plain = rw one (enter-plain r n plain)

  placed-one :
      (o : Option Text)
      → ((n : Text) → o ≡ some n → (split b'/' n ≡ n ∷ []) × IsPlain n)
      → placed cwd root o ≡ Option.map (λ n. r ++ n ∷ []) o
  placed-one none one = refl
  placed-one (some n) one =
      let (whole, plain) = one n refl in
      rw (at_r, join-one n whole plain, rel-append r (n ∷ []), escapes-plain (n ∷ []) (plain, tt))

-- For a root that resolves to `r`: SafeDownloadPath admits the names that ValidateFilename admits, and
-- answers `r` with the name as one more component; such a name holds no separator, and is none of "",
-- "." and "..".
pub safe_download_path_lem :
    (other : ℕ → ℕ) (cwd : Option Text) (root name : Text) (r : Components)
    → abs cwd root ≡ some r
    → (safe_download_path other cwd root name
        ≡ Option.map (λ n. r ++ n ∷ []) (validate_filename other name))
      × ((n : Text)
          → validate_filename other name ≡ some n
          → (n ≡ name) × (split b'/' name ≡ name ∷ []) × IsPlain name)
unfolding safe_download_path
safe_download_path_lem other cwd root name r at_r = (
  placed-one cwd root r at_r (validate_filename other name) (λ n h.
      let (same, whole, plain) = validate_filename-one other name n h in
      (subst (λ t. split b'/' t ≡ t ∷ []) (sym same) whole, subst IsPlain (sym same) plain)),
  λ n h. validate_filename-one other name n h,
)
