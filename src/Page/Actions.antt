-- ===== src/Page/Actions.antt =====
-- The commands of the user and Shutdown, of internal/ui/pages/downloads.go.
use lunefetch.Base.{
  ℕ, ◌==◌, if◌then◌else◌, List, [], ◌∷◌, map, Option, none, some, Bool, true, ◌||◌, String,
}
use lunefetch.Base.Int64.{ℤ}
use lunefetch.Storage.Record.{Status, DownloadRecord}
use lunefetch.Storage.Sql.{Conn, Result, ok, err, first}
use lunefetch.Storage.Downloads.{get_download, update_speed_limit}
use lunefetch.Storage.Queue.{move_queue_position}
use lunefetch.Storage.History.{delete_download, reset_progress}
use lunefetch.Queue.{try_start, remove}
use lunefetch.Page.{
  safe_path, World, Settings, Entry, Worker, Page, call, at, stored, mark, settle, has_entry,
  own_limiter, dir_of,
}
use lunefetch.Page.Finish.{set_dest, clean_part}

-- cancelFn of the entry of a download.
abbrev pub cancel_key : ℕ → Worker → Worker
cancel_key key v = record v { cancelled = v.key == key || v.cancelled }

unfoldable pub cancel_active : ℕ → Page → Page
cancel_active id p = elim (first (λ e. e.id == id) p.active) [
  | none ↦ p
  | some e ↦ record p { workers = map (cancel_key e.key) p.workers }
]

-- Whether a worker was running is told by dp.active, which a cancel leaves alone.
unfoldable pub pause_download : ℕ → ℕ → Page → Page
unfolding cancel_active
pause_download now id p =
    if has_entry p.active id then mark now id Status.paused (cancel_active id p) else p

abbrev pub each : {A : Type 0} → (A → Page → Page) → List A → Page → Page
each f [] p = p
each f (x ∷ xs) p = each f xs (f x p)

-- pauseActiveWorkers cancels all of them before any is marked.
unfoldable pub pause_all : ℕ → Page → Page
unfolding cancel_active
pause_all now p =
    each (λ e. mark now e.id Status.paused) p.active (each (λ e. cancel_active e.id) p.active p)

unfoldable pub resume_download : ℕ → ℕ → Page → Page
resume_download now id p = call (λ m. (try_start now id m).1) p

unfoldable pub move_in_queue : ℕ → ℤ → Page → Page
move_in_queue id delta p = stored (move_queue_position id delta) p

unfoldable pub cancel_download : ℕ → ℕ → Page → Page
unfolding cancel_active
cancel_download now id p = mark now id Status.cancelled (cancel_active id p)

unfoldable pub page_delete : ℕ → ℕ → Page → Page
unfolding cancel_download
page_delete now id p =
    stored (delete_download id now) (call (remove now id) (cancel_download now id p))

abbrev pub set_limiter : ℕ → ℤ → Worker → Worker
set_limiter key limit v = record v {
  limiter = if v.key == key then own_limiter limit else v.limiter;
}

abbrev pub limit_entry : ℤ → Entry → Page → Page
limit_entry limit e p = record p { workers = map (set_limiter e.key limit) p.workers }

abbrev pub limited : ℕ → ℤ → Result (Unit {0}) × Conn → Page → Page
limited id limit (err e, c) p = at c p
limited id limit (ok _, c) p = elim (first (λ e. e.id == id) p.active) [
  | none ↦ at c p
  | some e ↦ limit_entry limit e (at c p)
]

unfoldable pub page_speed_limit : ℕ → ℕ → ℤ → Page → Page
page_speed_limit now id limit p = limited id limit (update_speed_limit id limit now p.queue.state) p

-- The two CleanupFile of DownloadAgain, and TryStart.
abbrev pub fetch_again : ℕ → ℕ → String → Bool → Bool → Result (Unit {0}) × Conn → Page → Page
fetch_again now id dest keeps_file keeps_part (err e, c) p = at c p
fetch_again now id dest keeps_file keeps_part (ok _, c) p =
    if keeps_file
    then at c p
    else resume_download now id (clean_part keeps_part id (set_dest dest none (at c p)))

abbrev pub again_at : ℕ → ℕ → Bool → Bool → Option String → Page → Page
again_at now id keeps_file keeps_part none p = p
again_at now id keeps_file keeps_part (some dest) p =
    let p' = cancel_active id p in
    fetch_again now id dest keeps_file keeps_part
      (reset_progress id Status.pending now p'.queue.state) p'

abbrev pub again_read :
    World → Settings → ℕ → ℕ → Bool → Bool → Result (Option DownloadRecord) × Conn → Page → Page
again_read w cfg now id keeps_file keeps_part (err e, c) p = at c p
again_read w cfg now id keeps_file keeps_part (ok none, c) p = at c p
again_read w cfg now id keeps_file keeps_part (ok (some r), c) p =
    again_at now id keeps_file keeps_part (safe_path w (dir_of cfg r.save_dir) r.filename) (at c p)

unfoldable pub download_again : World → Settings → ℕ → ℕ → Bool → Bool → Page → Page
unfolding cancel_active resume_download
download_again w cfg now id keeps_file keeps_part p =
    again_read w cfg now id keeps_file keeps_part (get_download id p.queue.state) p

abbrev pub part_read : Bool → ℕ → Result (Option DownloadRecord) × Conn → Page → Page
part_read fails id (err e, c) p = at c p
part_read fails id (ok none, c) p = at c p
part_read fails id (ok (some r), c) p = clean_part fails id (at c p)

unfoldable pub remove_part_file : Bool → ℕ → Page → Page
remove_part_file fails id p = part_read fails id (get_download id p.queue.state) p

-- Every entry is cancelled and marked.
abbrev pub stop_all : ℕ → List Entry → Page → Page
stop_all now es p =
    each
      (λ e q. mark now e.id Status.paused (record q { workers = map (cancel_key e.key) q.workers }))
      es p

abbrev pub stop_page : ℕ → Page → Page
stop_page now p =
    each (λ id. settle now id Status.paused) p.pending
      (stop_all now p.active (record p { shutting_down = true; pending = [] }))

-- The shutdown up to workers.Wait, which blocks until no worker is left.
unfoldable pub shutdown : ℕ → Page → Page
shutdown now p = if p.shutting_down then p else stop_page now p
