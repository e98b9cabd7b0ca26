-- ===== src/Intake.antt =====
-- HandleAdd and RecoverDownloads of internal/ui/layout/desktop.go: how a request becomes a download.
pub mod Names
pub mod Saved
use lunefetch.Base.{
  ℕ, zero, suc, ◌+◌, ◌==◌, if◌then◌else◌, List, [], ◌∷◌, map, Option, none, some, Bool, true, false,
  ◌||◌, not, length, String, text_eq,
}
use lunefetch.Base.Int64.{ℤ, pos, ltb_ℤ}
use lunefetch.Storage.Record.{Status, DownloadRecord}
use lunefetch.Storage.Sql.{Conn, Result, ok, err}
use lunefetch.Storage.Downloads.{
  find_by_url, filename_exists, create_download_with_chunks, update_speed_limit,
  update_download_status, set_scheduled_at, reconcile_interrupted,
}
use lunefetch.Config.{Config, chunks_for_size}
use lunefetch.Core.Chunks.{Chunk, calculate_chunks}
use lunefetch.Core.Names.{Text, any_of, is_separator, validate_filename}
use lunefetch.Core.Paths.{Components, safe_download_path}
use lunefetch.Core.Info.{FileInfo, Outcome, admit}
use lunefetch.Filecat.{codes, category_name, from_filename}
use lunefetch.Queue.{Manager, ignoring, try_start, enqueue_scheduled, drain}

pub record AddRequest : Type 0 where
  pub url : String
  pub filename : String
  pub save_dir : String
  pub category : String
  pub speed_limit : ℤ
  pub scheduled_at : String

-- The text from its last dot on, if no separator is behind that, and the text before it.
abbrev pub ends_name : ℕ → Bool
ends_name c = c == b'.' || is_separator c

unfoldable pub ext_part : Text → Text
unfolding any_of
ext_part [] = []
ext_part (c ∷ cs) =
    let rest = ext_part cs in if any_of ends_name cs then rest else if c == b'.' then c ∷ cs else []

unfoldable pub base_part : Text → Text
unfolding any_of
base_part [] = []
base_part (c ∷ cs) =
    let rest = base_part cs in
    if any_of ends_name cs then c ∷ rest else if c == b'.' then [] else c ∷ cs

-- The settings, the working directory, the case of runes beyond ASCII, and fmt.Sprintf with the format
-- "%s (#%d)%s".
pub record Context : Type 0 where
  pub config : Config
  pub download_dir : String
  pub cwd : Option Text
  pub upper : ℕ → ℕ
  pub lower : ℕ → ℕ
  pub sprintf : Text → ℕ → Text → String

pub data Added : Type 0 where
  duplicate no_info bad_name no_free_name bad_destination not_saved : Added
  scheduled : ℕ → Added
  added : ℕ → Added

abbrev pub or_default : String → String → String
or_default given otherwise = if text_eq given "" then otherwise else given

-- The loop that looks for a name that no download has, from the number of the next try on.
unfoldable pub free_name : (ℕ → String) → ℕ → ℕ → String → Conn → Option String × Conn
free_name next zero i name c = (none, c)
free_name next (suc fuel) i name c =
    let (taken, c') = filename_exists name c in
    let rest = free_name next fuel (suc i) (next i) c' in if taken then rest else (some name, c')

abbrev pub numbered : Context → String → ℕ → String
numbered x name i = x.sprintf (base_part (codes name)) i (ext_part (codes name))

-- One try more than there are rows.
unfoldable pub unique_name : Context → String → Conn → Option String × Conn
unfolding free_name base_part ext_part
unique_name x name c = free_name (numbered x name) (suc (length c.db.downloads)) 1 name c

abbrev pub wanted_chunks : Context → FileInfo → ℤ
wanted_chunks x info = if info.supports_range then chunks_for_size x.config info.size else pos 1

abbrev pub limit_speed : ℕ → ℕ → ℤ → Manager → Manager
limit_speed now id limit m =
    if ltb_ℤ (pos 0) limit then ignoring (update_speed_limit id limit now) m else m

-- The new row waits for its time, or is started.
abbrev pub begin_added : ℕ → AddRequest → ℕ → Manager → Added × Manager
begin_added now req id m =
    if text_eq req.scheduled_at "" then (added id, (try_start now id m).1) else (
      scheduled id,
      ignoring (set_scheduled_at id (some req.scheduled_at) now)
          (ignoring (update_download_status id Status.scheduled now) m),
    )

abbrev pub at_conn : Conn → Manager → Manager
at_conn c m = record m { state = c }

abbrev pub add_saved : ℕ → AddRequest → Result ℕ × Conn → Manager → Added × Manager
add_saved now req (err e, c) m = (not_saved, at_conn c m)
add_saved now req (ok id, c) m =
    begin_added now req id (limit_speed now id req.speed_limit (at_conn c m))

unfoldable pub save_download :
    Context → ℕ → AddRequest → FileInfo → String → String → Conn → Result ℕ × Conn
save_download x now req info filename category c =
    let chunks = calculate_chunks info.size (wanted_chunks x info) in
    create_download_with_chunks req.url filename (or_default req.save_dir x.download_dir) category
      info.size info.supports_range (map (λ k. k.start) chunks) (map (λ k. k.end) chunks) info.etag
      info.last_modified now c

abbrev pub add_placed :
    Context
    → ℕ
    → AddRequest
    → FileInfo
    → String
    → String
    → Option Components
    → Manager
    → Added × Manager
add_placed x now req info filename category none m = (bad_destination, m)
add_placed x now req info filename category (some path) m =
    add_saved now req (save_download x now req info filename category m.state) m

abbrev pub add_named :
    Context → ℕ → AddRequest → FileInfo → String → Option String × Conn → Manager → Added × Manager
add_named x now req info category (none, c) m = (no_free_name, at_conn c m)
add_named x now req info category (some filename, c) m =
    add_placed x now req info filename category
      (safe_download_path x.upper x.cwd (codes (or_default req.save_dir x.download_dir))
        (codes filename))
      (at_conn c m)

abbrev pub add_valid :
    Context → ℕ → AddRequest → FileInfo → Outcome String → Manager → Added × Manager
add_valid x now req info (Outcome.err e) m = (bad_name, m)
add_valid x now req info (Outcome.ok name) m =
    add_named x now req info
      (or_default req.category (category_name (from_filename x.lower (codes name))))
      (unique_name x name m.state) m

abbrev pub add_info : Context → ℕ → AddRequest → Outcome FileInfo → Manager → Added × Manager
add_info x now req (Outcome.err e) m = (no_info, m)
add_info x now req (Outcome.ok info) m =
    add_valid x now req info (admit x.upper (or_default req.filename info.filename)) m

-- An error of FindByURL is taken for no row.
abbrev pub add_new :
    Context
    → ℕ
    → AddRequest
    → Outcome FileInfo
    → Result (Option DownloadRecord) × Conn
    → Manager
    → Added × Manager
add_new x now req info (ok (some r), c) m = (duplicate, at_conn c m)
add_new x now req info (ok none, c) m = add_info x now req info (at_conn c m)
add_new x now req info (err e, c) m = add_info x now req info (at_conn c m)

-- `info` is what GetFileInfo answers for the URL.
unfoldable pub handle_add : Context → ℕ → AddRequest → Outcome FileInfo → Manager → Added × Manager
unfolding unique_name save_download
handle_add x now req info m = add_new x now req info (find_by_url req.url m.state) m

abbrev pub recovered : ℕ → Result (Unit {0}) × Conn → Manager → Manager
recovered now (err e, c) m = at_conn c m
recovered now (ok _, c) m = drain now (at_conn c m)

unfoldable pub recover_downloads : ℕ → Manager → Manager
recover_downloads now m = recovered now (reconcile_interrupted now m.state) m
