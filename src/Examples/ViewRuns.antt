-- ===== src/Examples/ViewRuns.antt =====
-- The list in the window on concrete inputs.
use lunefetch.Base.{List, ℕ, [], ◌∷◌, none, some, true, false, ltb}
use lunefetch.Base.Int64.{pos, pos_part}
use lunefetch.Storage.Record.{Status, DownloadRecord}
use lunefetch.View.{size, Library, Store}
use lunefetch.View.Selection.{Selection}
use lunefetch.View.Orders.{eq}

-- A library whose texts all tie, and whose floats are numbers.
abbrev lib : Library
lib = record {
  lower = λ t. t;
  includes = λ t u. true;
  compare_text = λ t u. eq;
  Float = ℕ;
  zero_float = 0;
  quotient = λ a b. pos_part a;
  less = ltb;
  status_text = λ s. "";
}

abbrev row : ℕ → Status → ℕ → DownloadRecord
row id s n = record {
  id = id;
  url = "http://a/x";
  filename = "x";
  save_dir = "";
  category = "";
  speed_limit = pos 0;
  total_size = pos n;
  downloaded_size = pos 0;
  status = s;
  supports_ranges = true;
  num_chunks = 1;
  etag = none;
  last_modified = none;
  queue_position = none;
  scheduled_at = none;
  created_at = id;
  updated_at = id;
  deleted_at = none;
}

-- The paused ones by size, the largest first.
abbrev shown_store : Store
shown_store = record {
  all = row 1 Status.paused 5 ∷ row 2 Status.failed 7 ∷ row 3 Status.paused 9 ∷ [];
  view = [];
  selected_id = 0;
  filter = some Status.paused;
  category = "";
  search = "";
  sort_col = size;
  sort_asc = false;
}

-- Four rows, the first of them selected.
abbrev four_rows : List ℕ
four_rows = 9 ∷ 4 ∷ 7 ∷ 2 ∷ []

abbrev one_selected : Selection
one_selected = record { selected = 9 ∷ []; mode = true }
