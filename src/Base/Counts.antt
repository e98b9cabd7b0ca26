-- ===== src/Base/Counts.antt =====
-- How often a number stands in a list: the view of a list that forgets its order.
use Prim.Native.Nat.{ℕ, ◌+◌, ◌≤◌}
use mathlib.Core.Path.{◌≡◌, refl}
use mathlib.Core.Bool.{true, false, not}
use mathlib.Core.List.{List, [], ◌∷◌, ◌++◌}
use native.Mathlib.Omega.{arith}
use lunefetch.Base.Tests.{if◌then◌else◌, ◌==◌}
use lunefetch.Base.Lists.{contains, filter_by}

abbrev pub count : ℕ → List ℕ → ℕ
count x [] = 0
count x (y ∷ ys) = (if y == x then 1 else 0) + count x ys

pub count-append : (x : ℕ) (xs ys : List ℕ) → count x (xs ++ ys) ≡ count x xs + count x ys
count-append x [] ys = omega arith
count-append x (y ∷ xs) ys = omega (arith, count-append x xs ys)

-- No number twice.
abbrev pub Distinct : List ℕ → Type 0
Distinct [] = Unit
Distinct (x ∷ xs) = (contains xs x ≡ false) × Distinct xs

pub count-absent : (x : ℕ) (xs : List ℕ) → contains xs x ≡ false → count x xs ≡ 0
unfolding contains
count-absent x [] h = refl
count-absent x (y ∷ ys) h = ground (arith, count-absent x ys)

pub count-present : (x : ℕ) (xs : List ℕ) → contains xs x ≡ true → 1 ≤ count x xs
unfolding contains
count-present x [] h = cc
count-present x (y ∷ ys) h = ground (arith, count-present x ys)

pub contains-count : (x : ℕ) (xs : List ℕ) → 1 ≤ count x xs → contains xs x ≡ true
unfolding contains
contains-count x [] h = absurd (omega arith)
contains-count x (y ∷ ys) h = ground (arith, contains-count x ys)

pub count-Distinct : (x : ℕ) (xs : List ℕ) → Distinct xs → count x xs ≤ 1
unfolding contains
count-Distinct x [] d = omega arith
count-Distinct x (y ∷ ys) d =
    ground (arith, d.0, count-absent y ys, count-absent x ys, count-Distinct x ys d.1)

-- All occurrences of `id` are left out.
pub count-filter :
    (id x : ℕ) (xs : List ℕ)
    → count x (filter_by (λ y. not (y == id)) xs) ≡ (if x == id then 0 else count x xs)
unfolding filter_by
count-filter id x [] = ground arith
count-filter id x (y ∷ ys) = ground (arith, count-filter id x ys)
