-- ===== src/View/Sorted.antt =====
-- The rows in the window are those that pass the filters, in the order of the column.
use lunefetch.Base.{
  ℕ, suc, ◌≡◌, refl, ◌∙◌, if◌then◌else◌, List, [], ◌∷◌, Bool, not, arith, Bool-cases, inl, inr,
}
use lunefetch.Storage.Record.{DownloadRecord}
use lunefetch.Storage.Sql.{insert_by, order_by}
use lunefetch.View.Orders.{IsOrder}
use lunefetch.View.{TableColumn, Library, compare_progress, comes_first}

-- The strings and floats of the standard library are totally ordered.
pub record IsLawful (lib : Library) : Type 0 where
  pub text : IsOrder lib.compare_text
  pub float : IsOrder (compare_progress lib)

-- The number of entries that pass a test.
abbrev pub count : {A : Type 0} → (A → Bool) → List A → ℕ
count p [] = 0
count p (x ∷ xs) = if p x then suc (count p xs) else count p xs

count-insert_by :
    {A : Type 0} (le : A → A → Bool) (p : A → Bool) (a : A) (xs : List A)
    → count p (insert_by le a xs) ≡ count p (a ∷ xs)
unfolding insert_by
count-insert_by le p a [] = refl
count-insert_by le p a (x ∷ xs) = elim (Bool-cases (le a x)) [
  | inl e ↦ rw e refl
  | inr e ↦ rw e (ground (arith, count-insert_by le p a xs))
]

pub count-order_by :
    {A : Type 0} (le : A → A → Bool) (p : A → Bool) (xs : List A)
    → count p (order_by le xs) ≡ count p xs
unfolding order_by
count-order_by le p [] = refl
count-order_by le p (x ∷ xs) =
    count-insert_by le p x (order_by le xs) ∙ ground (arith, count-order_by le p xs)

-- `a` stands before `b` or ties with it.
abbrev pub stands_before : Library → TableColumn → Bool → DownloadRecord → DownloadRecord → Bool
stands_before lib col asc a b = not (comes_first lib col asc b a)
