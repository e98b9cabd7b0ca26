-- ===== src/View.antt =====
-- internal/ui/store/impl.go: the list of downloads as it is filtered, searched and sorted for the
-- window. A call holds the lock of the store, so it is one step; the calls that change downloads are
-- the mutator's, and end with a Load.
pub mod Orders
pub mod Sorted
pub mod Selection
use lunefetch.Base.{
  ℕ, suc, ◌==◌, if◌then◌else◌, ltb, List, [], ◌∷◌, Option, none, some, Bool, true, false, ◌&&◌,
  ◌||◌, not, length, filter_by, text_eq, String,
}
use lunefetch.Base.Int64.{ℤ, pos, leb_ℤ, ltb_ℤ}
use lunefetch.Storage.Record.{Status, status_code, status_eq, DownloadRecord}
use lunefetch.Storage.Sql.{order_by, Result, ok, err, Conn}
use lunefetch.Storage.Downloads.{list_downloads, update_download_status}
use lunefetch.View.Orders.{Order, lt, eq, gt, then_by, compare_ℕ, compare_ℤ}

pub data TableColumn : Type 0 where
  name size progress speed status added : TableColumn

-- What the code calls of the standard library: strings.ToLower, Contains and Compare, and the
-- quotient of two int64 as float64 with its order.
pub record Library : Type 1 where
  pub lower : String → String
  pub includes : String → String → Bool
  pub compare_text : String → String → Order
  pub Float : Type 0
  pub zero_float : Float
  pub quotient : ℤ → ℤ → Float
  pub less : Float → Float → Bool
  pub status_text : Status → String

-- `filter` is `none` for StatusAll.
pub record Store : Type 0 where
  pub all : List DownloadRecord
  pub view : List DownloadRecord
  pub selected_id : ℕ
  pub filter : Option Status
  pub category : String
  pub search : String
  pub sort_col : TableColumn
  pub sort_asc : Bool

unfoldable pub new_store : Store
new_store = record {
  all = [];
  view = [];
  selected_id = 0;
  filter = none;
  category = "";
  search = "";
  sort_col = added;
  sort_asc = true;
}

abbrev has_status : Option Status → DownloadRecord → Bool
has_status none r = true
has_status (some s) r = status_eq r.status s

-- The row passes the filter, the category and the search.
unfoldable pub is_shown : Library → Store → DownloadRecord → Bool
is_shown lib s r =
    has_status s.filter r
    && (text_eq s.category "" || text_eq r.category s.category)
    && (text_eq s.search "" || lib.includes (lib.lower r.filename) s.search)

unfoldable pub progress_of : (lib : Library) → DownloadRecord → lib.Float
progress_of lib r =
    if leb_ℤ r.total_size (pos 0) && leb_ℤ (pos 0) r.total_size
    then lib.zero_float
    else lib.quotient r.downloaded_size r.total_size

abbrev pub compare_progress : (lib : Library) → lib.Float → lib.Float → Order
compare_progress lib a b = if lib.less a b then lt else if lib.less b a then gt else eq

-- The comparison of two rows by the column alone.
unfoldable pub compare_column : Library → TableColumn → DownloadRecord → DownloadRecord → Order
unfolding progress_of
compare_column lib name a b = lib.compare_text (lib.lower a.filename) (lib.lower b.filename)
compare_column lib size a b = compare_ℤ a.total_size b.total_size
compare_column lib progress a b = compare_progress lib (progress_of lib a) (progress_of lib b)
compare_column lib status a b =
    lib.compare_text (lib.status_text a.status) (lib.status_text b.status)
compare_column lib speed a b = compare_ℕ a.created_at b.created_at
compare_column lib added a b = compare_ℕ a.created_at b.created_at

-- The comparison with the key where the column does not decide.
unfoldable pub comparison : Library → TableColumn → DownloadRecord → DownloadRecord → Order
unfolding compare_column
comparison lib col a b = then_by (compare_column lib col a b) (compare_ℕ a.id b.id)

abbrev pub is_lt : Order → Bool
is_lt lt = true
is_lt _ = false

abbrev pub is_gt : Order → Bool
is_gt gt = true
is_gt _ = false

unfoldable pub comes_first : Library → TableColumn → Bool → DownloadRecord → DownloadRecord → Bool
unfolding comparison
comes_first lib col asc a b =
    if asc then is_lt (comparison lib col a b) else is_gt (comparison lib col a b)

-- The stable sort puts a row behind those that come first.
unfoldable pub rebuild : Library → Store → Store
unfolding is_shown comes_first
rebuild lib s = record s {
  view =
      order_by (λ a b. not (comes_first lib s.sort_col s.sort_asc b a))
        (filter_by (is_shown lib s) s.all);
}

abbrev loaded : Library → Store → Result (List DownloadRecord) × Conn → Store × Conn
loaded lib s (err e, c) = (s, c)
loaded lib s (ok rs, c) = (rebuild lib (record s { all = rs }), c)

unfoldable pub load : Library → Store → Conn → Store × Conn
unfolding rebuild
load lib s c = loaded lib s (list_downloads c)

unfoldable pub set_filter : Library → Option Status → Store → Store
unfolding rebuild
set_filter lib f s = rebuild lib (record s { filter = f; category = "" })

unfoldable pub set_category : Library → String → Store → Store
unfolding rebuild
set_category lib c s =
    rebuild lib (record s { category = if text_eq c "All" then "" else c; filter = none })

unfoldable pub set_search : Library → String → Store → Store
unfolding rebuild
set_search lib query s = rebuild lib (record s { search = lib.lower query })

unfoldable pub set_sort : Library → TableColumn → Bool → Store → Store
unfolding rebuild
set_sort lib col asc s = rebuild lib (record s { sort_col = col; sort_asc = asc })

unfoldable pub select_row : ℕ → Store → Store
select_row id s = record s { selected_id = id }

unfoldable pub selected : Store → List DownloadRecord → Option DownloadRecord
selected s [] = none
selected s (r ∷ rs) = if r.id == s.selected_id then some r else selected s rs

unfoldable pub status_count : Status → Store → ℕ
status_count st s = length (filter_by (λ r. status_eq r.status st) s.all)

-- Retry: the status, the mutator's ResumeDownload, and a Load.
unfoldable pub retry : Library → ℕ → ℕ → (Conn → Conn) → Store → Conn → Store × Conn
unfolding load
retry lib id now resume s c = load lib s (resume (update_download_status id Status.pending now c).1)
