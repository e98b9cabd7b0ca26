-- ===== src/Page/Closing.antt =====
-- Shutdown of internal/ui/pages/downloads.go: nothing begins after it, and all that runs is stopped.
use lunefetch.Base.{
  ℕ, ◌≤◌, ◌==◌, ◌≡◌, refl, if◌then◌else◌, List, [], ◌∷◌, map, Option, none, some, Bool, true, false,
  ◌&&◌, ◌||◌, not, contains, All, arith, Bool-cases, Option-cases, inl, inr, String, length,
}
use lunefetch.Storage.Record.{Status, DownloadRecord, ChunkRecord}
use lunefetch.Storage.Sql.{Conn, Result, ok, err, first}
use lunefetch.Storage.Chunks.{get_chunks}
use lunefetch.Storage.Downloads.{get_download}
use lunefetch.Core.Files.{Contents}
use lunefetch.Queue.{Manager}
use lunefetch.Page.{
  safe_path, World, Settings, Worker, Page, at, mark, release, settle, has_entry, remove_first,
  update_first, is_running, registered, register, new_worker, begin_path, begin_chunks, begin_read,
  start_download, start_returned, dir_of,
}
use lunefetch.Page.Finish.{prompted, conflict}
use lunefetch.Page.Life.{begin_start}
use lunefetch.Page.Holds.{All-mapped}

-- A goroutine whose context is cancelled, if it still runs Start.
abbrev pub IsStopped : Worker → Type 0
IsStopped v = is_running v ≡ true → v.cancelled ≡ true

-- The page shuts down, waits for no answer, and has at most `n` goroutines, all of them stopped.
pub record IsClosed (n : ℕ) (p : Page) : Type 0 where
  pub closing : p.shutting_down ≡ true
  pub unasked : p.pending ≡ []
  pub stopped : All IsStopped p.workers
  pub bounded : length p.workers ≤ n

pub length-map : (f : Worker → Worker) (vs : List Worker) → length (map f vs) ≡ length vs
length-map f [] = refl
length-map f (v ∷ vs) = omega (arith, length-map f vs)

length-update :
    (t : Worker → Bool) (failed : Bool) (vs : List Worker)
    → length (update_first t (λ v. record v { returned = some failed }) vs) ≡ length vs
unfolding update_first
length-update t failed [] = refl
length-update t failed (v ∷ vs) = ground (arith, length-update t failed vs)

updated-IsStopped :
    (t : Worker → Bool) (failed : Bool) (vs : List Worker)
    → All IsStopped vs
    → All IsStopped (update_first t (λ v. record v { returned = some failed }) vs)
unfolding update_first
updated-IsStopped t failed [] h = tt
updated-IsStopped t failed (v ∷ vs) h = elim (Bool-cases (t v)) [
  | inl e ↦ rw (e, update_first) ((λ r. cc), h.1)
  | inr e ↦ rw (e, update_first) (h.0, updated-IsStopped t failed vs h.1)
]

pub length-remove-le :
    (t : Worker → Bool) (vs : List Worker) → length (remove_first t vs) ≤ length vs
unfolding remove_first
length-remove-le t [] = omega arith
length-remove-le t (v ∷ vs) = ground (arith, length-remove-le t vs)

module _ (n : ℕ) where
  -- What the queue does changes nothing of it, nor what happens to files.
  pub queue-IsClosed :
      (m : Manager) (s : List ℕ) (p : Page)
      → IsClosed n p
      → IsClosed n (record p { queue = m; starting = s })
  queue-IsClosed m s p k = record {
    closing = k.closing;
    unasked = k.unasked;
    stopped = k.stopped;
    bounded = k.bounded;
  }

  pub files-IsClosed :
      (parts : ℕ → Option Contents) (dests : String → Option Contents) (p : Page)
      → IsClosed n p
      → IsClosed n (record p { parts = parts; dests = dests })
  files-IsClosed parts dests p k = record {
    closing = k.closing;
    unasked = k.unasked;
    stopped = k.stopped;
    bounded = k.bounded;
  }

  pub workers-IsClosed :
      (f : Worker → Worker) (p : Page)
      → ((v : Worker) → IsStopped v → IsStopped (f v))
      → IsClosed n p
      → IsClosed n (record p { workers = map f p.workers })
  workers-IsClosed f p still k = record {
    closing = k.closing;
    unasked = k.unasked;
    stopped = All-mapped IsStopped IsStopped f p.workers still k.stopped;
    bounded = omega (arith, length-map f p.workers, k.bounded);
  }

  -- StartDownload gives the slot back.
  register-IsClosed :
      (now : ℕ) (v : Worker) (p : Page) → IsClosed n p → IsClosed n (register now v p)
  unfolding register
  register-IsClosed now v p k =
      (elim p.shutting_down
          as (λ b.
            b ≡ true
            → IsClosed n (
                if b
                then release now v.id p
                else if has_entry p.active v.id
                then release now v.id p
                else mark now v.id Status.downloading (registered v p))) [
                  | true ↦ λ e. queue-IsClosed _ _ p k
                  | false ↦ λ e. cc
                ])
        k.closing

  begin_chunks-IsClosed :
      (w : World) (cfg : Settings) (now id : ℕ) (r : DownloadRecord)
      (o : Result (List ChunkRecord) × Conn) (p : Page)
      → IsClosed n p
      → IsClosed n (begin_chunks w cfg now id r o p)
  unfolding begin_chunks begin_path
  begin_chunks-IsClosed w cfg now id r (err e, c) p k = queue-IsClosed _ _ p k
  begin_chunks-IsClosed w cfg now id r (ok [], c) p k = queue-IsClosed _ _ p k
  begin_chunks-IsClosed w cfg now id r (ok (x ∷ xs), c) p k =
      elim (Option-cases (safe_path w (dir_of cfg r.save_dir) r.filename)) [
        | inl unsafe ↦ rw (unsafe, begin_path) (queue-IsClosed _ _ p k)
        | inr (dest, e) ↦
            rw (e, begin_path)
              (register-IsClosed now (new_worker cfg p.next_key id r (x ∷ xs) dest) (at c p)
                (queue-IsClosed _ _ p k))
      ]

  begin_read-IsClosed :
      (w : World) (cfg : Settings) (now id : ℕ) (o : Result (Option DownloadRecord) × Conn)
      (p : Page)
      → IsClosed n p
      → IsClosed n (begin_read w cfg now id o p)
  unfolding begin_read
  begin_read-IsClosed w cfg now id (err e, c) p k = queue-IsClosed _ _ p k
  begin_read-IsClosed w cfg now id (ok none, c) p k = queue-IsClosed _ _ p k
  begin_read-IsClosed w cfg now id (ok (some r), c) p k =
      begin_chunks-IsClosed w cfg now id r (get_chunks id c) p k

  pub begin_start-IsClosed :
      (w : World) (cfg : Settings) (now id : ℕ) (p : Page)
      → IsClosed n p
      → IsClosed n (begin_start w cfg now id p)
  unfolding begin_start start_download
  begin_start-IsClosed w cfg now id p k = elim (Bool-cases (contains p.starting id)) [
    | inr other ↦ rw (other, begin_start) k
    | inl due ↦
        rw (due, begin_start)
          (begin_read-IsClosed w cfg now id (get_download id p.queue.state) _
            (queue-IsClosed _ _ p k))
  ]

  pub start_returned-IsClosed :
      (key : ℕ) (failed : Bool) (bytes : Option Contents) (p : Page)
      → IsClosed n p
      → IsClosed n (start_returned key failed bytes p)
  unfolding start_returned
  start_returned-IsClosed key failed bytes p k =
      elim (Option-cases (first (λ v. is_running v && v.key == key) p.workers)) [
        | inl nobody ↦ rw (nobody, start_returned) k
        | inr (v, found) ↦
            rw (found, start_returned)
              (record {
                closing = k.closing;
                unasked = k.unasked;
                stopped = updated-IsStopped _ failed p.workers k.stopped;
                bounded = omega (arith, length-update _ failed p.workers, k.bounded);
              })
      ]

  pub conflict-IsClosed :
      (now : ℕ) (v : Worker) (p : Page) → IsClosed n p → IsClosed n (conflict now v p)
  unfolding conflict
  conflict-IsClosed now v p k =
      (elim p.shutting_down
          as (λ b.
            b ≡ true
            → IsClosed n
                (if b || not p.has_window then settle now v.id Status.paused p else prompted v p)) [
                  | true ↦ λ e. queue-IsClosed _ _ p k
                  | false ↦ λ e. cc
                ])
        k.closing
