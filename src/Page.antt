-- ===== src/Page.antt =====
-- internal/ui/pages/downloads.go: the life of a download between the queue, its worker, and the file
-- that it ends in. A handler is one step but for the places where other goroutines get in between: the
-- start of `StartDownload`, the return of `Start`, what follows it, and an answer to the dialog.
pub mod Life
pub mod Holds
pub mod Starts
pub mod Answers
pub mod Commands
pub mod Slots
pub mod Closing
pub mod Quiet
pub mod Shutdown
pub mod Prompts
pub mod Finish
pub mod Actions
use mathlib.Core.Option
use lunefetch.Base.{
  ℕ, ◌+◌, ◌==◌, if◌then◌else◌, List, [], ◌∷◌, ◌++◌, map, Option, none, some, Bool, true, false,
  ◌&&◌, ◌||◌, not, contains, filter_by, String, text_eq, length,
}
use lunefetch.Base.Int64.{ℤ, pos, ltb_ℤ}
use lunefetch.Storage.Record.{Status, DownloadRecord, ChunkRecord, is_some}
use lunefetch.Storage.Sql.{M, Conn, Result, ok, err, first}
use lunefetch.Storage.Chunks.{get_chunks}
use lunefetch.Storage.Downloads.{
  get_download, update_download_status, update_download_filename, update_speed_limit,
}
use lunefetch.Storage.Queue.{move_queue_position}
use lunefetch.Storage.History.{delete_download, reset_progress}
use lunefetch.Core.Chunks.{Chunk}
use lunefetch.Core.Progress.{Downloader, new_downloader}
use lunefetch.Filecat.{codes}
use lunefetch.Core.Names.{Text}
use lunefetch.Core.Paths.{Components, safe_download_path}
use lunefetch.Core.Throttle.{Limiter, new_limiter}
use lunefetch.Core.Files.{
  Contents, Paths, MoveFaults, MoveError, destination_exists, move_file, replace_file, Lookup,
  absent, present, broken, unique_download_path,
}
use lunefetch.Queue.{Manager, new_manager, ignoring, on_done, try_start, remove, forget}

-- The case of letters beyond ASCII, the working directory, a path as a text, the names that
-- UniqueDownloadPath tries, and filepath.Base.
pub record World : Type 0 where
  pub upper : ℕ → ℕ
  pub cwd : Option Text
  pub path_text : Components → String
  pub numbered : String → ℕ → String
  pub base : String → String

abbrev pub safe_path : World → String → String → Option String
safe_path w root name =
    Option.map w.path_text (safe_download_path w.upper w.cwd (codes root) (codes name))

-- The settings that the page reads.
pub record Settings : Type 0 where
  pub download_dir : String
  pub max_retries : ℤ

-- An entry of dp.active: its pointer is `key`.
pub record Entry : Type 0 where
  pub id : ℕ
  pub key : ℕ

-- A goroutine of StartDownload, with its entry's downloader and context. `returned` is `none` while
-- Start runs, and then whether it failed.
pub record Worker : Type 0 where
  pub key : ℕ
  pub id : ℕ
  pub downloader : Downloader
  pub limiter : Option Limiter
  pub dest : String
  pub filename : String
  pub cancelled : Bool
  pub returned : Option Bool

-- What a dialog of promptConflict was opened for.
pub record Prompt : Type 0 where
  pub id : ℕ
  pub dest : String
  pub filename : String

-- The page. `starting` are the calls of StartDownload that the queue began and that did not run yet,
-- `parts` the part file of each download, and `dests` what is at a path.
pub record Page : Type 0 where
  pub queue : Manager
  pub active : List Entry
  pub pending : List ℕ
  pub shutting_down : Bool
  pub has_window : Bool
  pub starting : List ℕ
  pub workers : List Worker
  pub next_key : ℕ
  pub prompts : List Prompt
  pub parts : ℕ → Option Contents
  pub dests : String → Option Contents

-- NewDownloadsPage with the queue and the window that it is given, over the files that there are.
unfoldable pub new_page :
    Conn → ℤ → Bool → (ℕ → Option Contents) → (String → Option Contents) → Page
new_page state max_concurrent window parts dests = record {
  queue = new_manager state max_concurrent;
  active = [];
  pending = [];
  shutting_down = false;
  has_window = window;
  starting = [];
  workers = [];
  next_key = 0;
  prompts = [];
  parts = parts;
  dests = dests;
}

-- A call of the queue, whose `go m.startFn(id)` become starts.
abbrev pub call : (Manager → Manager) → Page → Page
call f p =
    let m = f (record p.queue { started = [] }) in
    record p { queue = m; starting = p.starting ++ m.started }

abbrev pub at : Conn → Page → Page
at c p = record p { queue = record p.queue { state = c } }

-- A call of the storage whose error is ignored.
abbrev pub stored : {A : Type 0} → M A → Page → Page
stored op p = record p { queue = ignoring op p.queue }

abbrev pub mark : ℕ → ℕ → Status → Page → Page
mark now id status p = stored (update_download_status id status now) p

abbrev pub release : ℕ → ℕ → Page → Page
release now id p = call (on_done now id) p

-- UpdateDownloadStatus and then OnDone.
abbrev pub settle : ℕ → ℕ → Status → Page → Page
settle now id status p = release now id (mark now id status p)

unfoldable pub has_entry : List Entry → ℕ → Bool
has_entry [] id = false
has_entry (e ∷ es) id = if e.id == id then true else has_entry es id

unfoldable pub remove_first : {A : Type 0} → (A → Bool) → List A → List A
remove_first p [] = []
remove_first p (x ∷ xs) = if p x then xs else x ∷ remove_first p xs

unfoldable pub update_first : {A : Type 0} → (A → Bool) → (A → A) → List A → List A
update_first p f [] = []
update_first p f (x ∷ xs) = if p x then f x ∷ xs else x ∷ update_first p f xs

abbrev pub is_running : Worker → Bool
is_running v = not (is_some v.returned)

-- The chunks of a row as the downloader takes them.
abbrev pub chunk_def : ChunkRecord → Chunk
chunk_def c = record {
  index = c.chunk_index;
  start = c.start_byte;
  end = c.end_byte;
  downloaded = c.downloaded_size;
}

abbrev pub dir_of : Settings → String → String
dir_of cfg dir = if text_eq dir "" then cfg.download_dir else dir

abbrev pub own_limiter : ℤ → Option Limiter
own_limiter limit = if ltb_ℤ (pos 0) limit then some (new_limiter limit) else none

abbrev pub registered : Worker → Page → Page
registered v p = record p {
  active = record { id = v.id; key = v.key } ∷ p.active;
  workers = v ∷ p.workers;
  next_key = p.next_key + 1;
}

-- The entry and the goroutine, unless the page shuts down or the download runs.
unfoldable pub register : ℕ → Worker → Page → Page
unfolding has_entry
register now v p =
    if p.shutting_down
    then release now v.id p
    else if has_entry p.active v.id
    then release now v.id p
    else mark now v.id Status.downloading (registered v p)

new_worker : Settings → ℕ → ℕ → DownloadRecord → List ChunkRecord → String → Worker
new_worker cfg key id r chunks dest = record {
  key = key;
  id = id;
  downloader =
      new_downloader r.total_size (map chunk_def chunks) (pos r.num_chunks) cfg.max_retries;
  limiter = own_limiter r.speed_limit;
  dest = dest;
  filename = r.filename;
  cancelled = false;
  returned = none;
}

begin_path : Settings → ℕ → ℕ → DownloadRecord → List ChunkRecord → Option String → Page → Page
unfolding register new_worker
begin_path cfg now id r chunks none p = settle now id Status.failed p
begin_path cfg now id r chunks (some dest) p =
    register now (new_worker cfg p.next_key id r chunks dest) p

begin_chunks :
    World → Settings → ℕ → ℕ → DownloadRecord → Result (List ChunkRecord) × Conn → Page → Page
unfolding begin_path
begin_chunks w cfg now id r (err e, c) p = settle now id Status.failed (at c p)
begin_chunks w cfg now id r (ok [], c) p = settle now id Status.failed (at c p)
begin_chunks w cfg now id r (ok (x ∷ xs), c) p =
    begin_path cfg now id r (x ∷ xs) (safe_path w (dir_of cfg r.save_dir) r.filename) (at c p)

begin_read : World → Settings → ℕ → ℕ → Result (Option DownloadRecord) × Conn → Page → Page
unfolding begin_chunks
begin_read w cfg now id (err e, c) p = release now id (at c p)
begin_read w cfg now id (ok none, c) p = release now id (at c p)
begin_read w cfg now id (ok (some r), c) p = begin_chunks w cfg now id r (get_chunks id c) p

unfoldable pub start_download : World → Settings → ℕ → ℕ → Page → Page
unfolding begin_read
start_download w cfg now id p = begin_read w cfg now id (get_download id p.queue.state) p

-- Start returns to the goroutine of the entry `key`, which leaves dp.active if it stands there; `bytes`
-- are what Start left in the part file.
unfoldable pub start_returned : ℕ → Bool → Option Contents → Page → Page
start_returned key failed bytes p = elim (first (λ v. is_running v && v.key == key) p.workers) [
  | none ↦ p
  | some v ↦ record p {
    active = filter_by (λ e. not (e.id == v.id && e.key == v.key)) p.active;
    workers =
        update_first (λ v. is_running v && v.key == key) (λ v. record v { returned = some failed })
          p.workers;
    parts = λ i. if i == v.id then bytes else p.parts i;
  }
]
