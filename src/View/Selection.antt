-- ===== src/View/Selection.antt =====
-- internal/ui/components/table_multi_select.go: which downloads of the table are selected. The set is
-- a list of keys; `records` are the keys of the rows of the table.
use lunefetch.Base.{
  ℕ, suc, ◌-◌, ◌==◌, leb, ◌≡◌, if◌then◌else◌, List, [], ◌∷◌, Option, none, some, Bool, true, false,
  ◌||◌, not, length, contains, take, drop, Pairwise, arith,
}
use lunefetch.Storage.Sql.{order_by}
use lunefetch.Queue.{forget}
use lunefetch.Storage.Ordering.{order_by-Pairwise}
use lunefetch.View.Sorted.{count, count-order_by}

pub record Selection : Type 0 where
  pub selected : List ℕ
  pub mode : Bool

unfoldable pub new_selection : Selection
new_selection = record { selected = []; mode = false }

unfoldable pub toggle_mode : Selection → Selection
toggle_mode m = record { selected = []; mode = not m.mode }

-- m.selected[id] = true
unfoldable pub mark : ℕ → List ℕ → List ℕ
unfolding contains
mark id ids = if contains ids id then ids else id ∷ ids

unfoldable pub mark_all : List ℕ → List ℕ → List ℕ
unfolding mark
mark_all [] ids = ids
mark_all (x ∷ xs) ids = mark_all xs (mark x ids)

-- The last row with the key, counted from `i`.
unfoldable pub row_of : ℕ → ℕ → List ℕ → Option ℕ → Option ℕ
row_of id i [] found = found
row_of id i (r ∷ rs) found = row_of id (suc i) rs (if r == id then some i else found)

abbrev pub range_between : List ℕ → Option ℕ → Option ℕ → List ℕ
range_between records (some first) (some last) = take (suc last - first) (drop first records)
range_between records _ _ = []

-- The rows that selectRange marks.
unfoldable pub rows_between : List ℕ → ℕ → ℕ → List ℕ
unfolding row_of
rows_between records first last =
    range_between records (row_of first 0 records none) (row_of last 0 records none)

unfoldable pub select_range : List ℕ → ℕ → ℕ → Selection → Selection
unfolding mark_all rows_between
select_range records first last m =
    if not m.mode || length records == 0
    then m
    else record m { selected = mark_all (rows_between records first last) m.selected }

unfoldable pub is_selected : ℕ → Selection → Bool
unfolding contains
is_selected id m = contains m.selected id

unfoldable pub clear_selection : Selection → Selection
clear_selection m = record m { selected = [] }

unfoldable pub toggle : ℕ → Selection → Selection
unfolding contains forget
toggle id m =
    if contains m.selected id
    then record m { selected = forget id m.selected }
    else record m { selected = id ∷ m.selected }

unfoldable pub selected_count : Selection → ℕ
selected_count m = length m.selected

unfoldable pub get_selected_ids : Selection → List ℕ
unfolding order_by
get_selected_ids m = order_by leb m.selected

-- The selected keys are listed in increasing order, each as often as it is selected.
pub get_selected_ids-Sorted :
    (m : Selection)
    → ((p : ℕ → Bool) → count p (get_selected_ids m) ≡ count p m.selected)
      × Pairwise (λ a b. leb a b ≡ true) (get_selected_ids m)
unfolding get_selected_ids
get_selected_ids-Sorted m = (
  λ p. count-order_by leb p m.selected,
  order_by-Pairwise leb (λ a b h. ground arith) (λ a b c h k. ground arith) m.selected,
)
