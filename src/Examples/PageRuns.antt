-- ===== src/Examples/PageRuns.antt =====
-- The page of downloads on concrete inputs.
use Prim.Native.String.{String}
use lunefetch.Base.{
  ℕ, ◌≡◌, refl, [], ◌∷◌, List, Option, none, some, true, false, if◌then◌else◌, ◌==◌, text_eq,
  contains, filter_by, map,
}
use lunefetch.Base.Int64.{pos}
use lunefetch.Storage.Record.{Status, DownloadRecord, ChunkRecord}
use lunefetch.Storage.Sql.{Conn}
use lunefetch.Core.Files.{MoveFaults, move_file}
use lunefetch.Storage.Sql.{exec, query, update_where, select, first, order_by}
use lunefetch.Storage.Downloads.{get_download, update_download_status, update_download_filename}
use lunefetch.Storage.Chunks.{get_chunks}
use lunefetch.Storage.Queue.{
  mark_downloading, enqueue_download, next_in_queue, set_queue_position, next_row,
}
use lunefetch.Queue.{
  new_manager, try_start, on_done, launch, enqueue, drain_queue, drain_loop, forget,
}
use lunefetch.Core.Files.{unique_download_path}
use lunefetch.Core.ContentRange.{split}
use lunefetch.Core.Paths.{safe_download_path}
use lunefetch.Page.{start_returned}
use lunefetch.Page.Finish.{worker_done}
use lunefetch.Page.Actions.{pause_download, resume_download, page_delete, cancel_download}
use lunefetch.Queue.{remove}
use lunefetch.Storage.History.{delete_download}
use lunefetch.Page.{World, Settings, Prompt, Page, new_page, update_first}
use lunefetch.Page.Finish.{keep_both, replace, answer_prompt}
use lunefetch.Page.Actions.{shutdown}
use lunefetch.Page.Life.{
  Event, begins, returns, finishes, answers, pauses, resumes, deletes, adds, shuts_down, live,
}
use lunefetch.Page.Holds.{Holds}
use lunefetch.Page.Slots.{live-owned}
use lunefetch.Page.Closing.{IsClosed}
use lunefetch.Page.Shutdown.{live-shutdown}
use lunefetch.Page.Prompts.{IsSaved, answer_prompt-once, answer_prompt-IsSaved}

-- The one file of interest is "x"; the first other name of any is "new".
abbrev world : World
world = record {
  upper = λ c. c;
  cwd = some [];
  path_text = λ path. "x";
  numbered = λ dest i. if i == 0 then dest else "new";
  base = λ path. path;
}

abbrev settings : Settings
settings = record { download_dir = "d"; max_retries = pos 3 }

abbrev row : ℕ → DownloadRecord
row id = record {
  id = id;
  url = "http://a/x";
  filename = "x";
  save_dir = "";
  category = "";
  speed_limit = pos 0;
  total_size = pos 2;
  downloaded_size = pos 0;
  status = Status.pending;
  supports_ranges = true;
  num_chunks = 1;
  etag = none;
  last_modified = none;
  queue_position = none;
  scheduled_at = none;
  created_at = id;
  updated_at = id;
  deleted_at = none;
}

abbrev chunk : ℕ → ChunkRecord
chunk id = record {
  id = id;
  download_id = id;
  chunk_index = 0;
  start_byte = pos 0;
  end_byte = pos 1;
  downloaded_size = pos 0;
  status = Status.pending;
  error = none;
  retry_count = 0;
}

abbrev tables : Conn
tables = record {
  db = record {
    downloads = row 1 ∷ row 2 ∷ [];
    chunks = chunk 1 ∷ chunk 2 ∷ [];
    next_download_id = 3;
    next_chunk_id = 3;
  };
  faults = [];
}

abbrev no_faults : MoveFaults
no_faults = record {
  rename = none;
  remove_dest = false;
  link = none;
  remove_source = false;
  open_source = false;
  create = false;
  copy = none;
  cleanup = false;
  close = false;
}

-- One slot, and a file "x" that is already there.
abbrev first_page : Page
first_page =
    new_page tables (pos 1) true (λ id. none)
      (λ path. if text_eq path "x" then some (9 ∷ []) else none)

-- Both downloads are added, and the first one runs.
abbrev begun : List (ℕ × Event)
begun = (1, adds 1) ∷ (2, adds 2) ∷ (3, begins 1) ∷ []

-- The first one ends, its name is taken, and the user keeps both files.
abbrev kept_both : List (ℕ × Event)
kept_both =
    (1, adds 1)
    ∷ (2, adds 2)
    ∷ (3, begins 1)
    ∷ (4, returns 0 false (some (5 ∷ 6 ∷ [])))
    ∷ (5, finishes no_faults 0)
    ∷ (6, answers no_faults 1 (keep_both (λ i. false)))
    ∷ (7, begins 2)
    ∷ []

live-owned_example : Holds [] (live world settings kept_both first_page)
live-owned_example = live-owned world settings kept_both tables (pos 1) true _ _

live-shutdown_example : IsClosed 1 (
    live world settings
      ((9, begins 2) ∷ (9, adds 2) ∷ [])
      (shutdown 8 (live world settings begun first_page)))
unfolding safe_download_path split live new_page contains try_start new_manager get_download query
    first launch mark_downloading exec update_where enqueue enqueue_download get_chunks order_by
    select
live-shutdown_example =
    live-shutdown world settings ((9, begins 2) ∷ (9, adds 2) ∷ []) 8
      (live world settings begun first_page)
      (live-owned world settings begun tables (pos 1) true _ _) refl

kept_both-new :
    let p = live world settings kept_both first_page in
    (p.dests "new" ≡ some (5 ∷ 6 ∷ []))
    × (p.dests "x" ≡ some (9 ∷ []))
    × (p.parts 1 ≡ none)
    × (p.queue.active ≡ 2 ∷ [])
unfolding safe_download_path split live new_page contains try_start new_manager get_download query
    first launch mark_downloading exec update_where enqueue enqueue_download get_chunks order_by
    select start_returned worker_done unique_download_path on_done drain_queue drain_loop forget
    next_in_queue set_queue_position update_download_status update_download_filename update_first
    next_row filter_by move_file
kept_both-new = (refl, refl, refl, refl)

abbrev row_states : Page → List (Status × Option ℕ)
row_states p = map (λ r. (r.status, r.queue_position)) p.queue.state.db.downloads

-- A pause and a resume before the goroutine ends: the resume is lost.
resume_lost :
    let p =
      live world settings
        ((1, adds 1)
          ∷ (3, begins 1)
          ∷ (4, pauses 1)
          ∷ (5, resumes 1)
          ∷ (6, returns 0 true none)
          ∷ (7, finishes no_faults 0)
          ∷ [])
        first_page in
    (p.queue.active ≡ []) × (row_states p ≡ (Status.paused, none) ∷ (Status.pending, none) ∷ [])
unfolding safe_download_path split live new_page contains try_start new_manager get_download query
    first launch mark_downloading exec update_where enqueue enqueue_download get_chunks order_by
    select start_returned worker_done on_done drain_queue drain_loop forget next_in_queue
    set_queue_position update_download_status update_first next_row filter_by pause_download
    resume_download
resume_lost = (refl, refl)

-- A shutdown with a download that waits: it leaves the queue.
queue_lost :
    let p =
      live world settings
        ((1, adds 1)
          ∷ (2, adds 2)
          ∷ (3, begins 1)
          ∷ (4, shuts_down)
          ∷ (5, returns 0 true none)
          ∷ (6, finishes no_faults 0)
          ∷ (7, begins 2)
          ∷ [])
        first_page in
    (p.queue.active ≡ []) × (row_states p ≡ (Status.paused, none) ∷ (Status.downloading, none) ∷ [])
unfolding safe_download_path split live new_page contains try_start new_manager get_download query
    first launch mark_downloading exec update_where enqueue enqueue_download get_chunks order_by
    select start_returned worker_done on_done drain_queue drain_loop forget next_in_queue
    set_queue_position update_download_status update_first next_row filter_by shutdown
queue_lost = (refl, refl)

-- A download is deleted before its goroutine begins.
deleted_starts :
    let p = live world settings ((1, adds 1) ∷ (2, deletes 1) ∷ (3, begins 1) ∷ []) first_page in
    (map (λ v. v.id) p.workers ≡ 1 ∷ [])
    × (map (λ v. v.cancelled) p.workers ≡ false ∷ [])
    × (row_states p ≡ (Status.downloading, none) ∷ (Status.pending, none) ∷ [])
    × (map (λ r. r.deleted_at) p.queue.state.db.downloads ≡ some 2 ∷ none ∷ [])
unfolding safe_download_path split live new_page contains try_start new_manager get_download query
    first launch mark_downloading exec update_where enqueue enqueue_download get_chunks order_by
    select remove update_download_status page_delete cancel_download delete_download
deleted_starts = (refl, refl, refl, refl)

abbrev asked : Prompt
asked = record { id = 1; dest = "x"; filename = "x" }

abbrev asking : Page
asking = record first_page { parts = λ id. some (5 ∷ 6 ∷ []); pending = 1 ∷ [] }

answer_prompt-once_example :
    answer_prompt world no_faults 8 asked replace
      (answer_prompt world no_faults 7 asked (keep_both (λ i. false)) asking)
    ≡ answer_prompt world no_faults 7 asked (keep_both (λ i. false)) asking
answer_prompt-once_example =
    answer_prompt-once world no_faults no_faults 7 8 asked (keep_both (λ i. false)) replace asking

answer_prompt-IsSaved_example :
    (dest : String) × IsSaved 1
      (5 ∷ 6 ∷ [])
      dest
      (answer_prompt world no_faults 7 asked replace asking)
unfolding new_page
answer_prompt-IsSaved_example =
    answer_prompt-IsSaved world no_faults 7 asked replace asking (5 ∷ 6 ∷ []) refl refl
