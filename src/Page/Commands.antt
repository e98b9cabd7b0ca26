-- ===== src/Page/Commands.antt =====
-- The slots through the commands of the user and Shutdown, of internal/ui/pages/downloads.go.
use lunefetch.Base.{
  ℕ, ◌==◌, ◌≡◌, refl, ◌∙◌, if◌then◌else◌, List, [], ◌∷◌, map, Option, none, some, Bool, true, false,
  All-map, arith, Bool-cases, Option-cases, inl, inr, String,
}
use lunefetch.Base.Int64.{ℤ}
use lunefetch.Base.Counts.{count}
use lunefetch.Storage.Record.{Status, DownloadRecord}
use lunefetch.Storage.Sql.{Conn, Result, ok, err, first}
use lunefetch.Storage.History.{reset_progress}
use lunefetch.Queue
use lunefetch.Queue.{
  Manager, Call, step, new_manager, try_start, remove, drain, set_max_concurrent, enqueue_scheduled,
}
use lunefetch.Queue.Books.{IsBooked, try_start-IsBooked, remove-IsBooked}
use lunefetch.Queue.Slots.{step-slots}
use lunefetch.Page.{
  safe_path, World, Settings, Entry, Worker, Page, call, at, settle, has_entry, dir_of,
}
use lunefetch.Page.Finish.{clean_part, set_dest}
use lunefetch.Page.Actions.{
  cancel_key, cancel_active, pause_download, each, pause_all, resume_download, cancel_download,
  page_delete, set_limiter, limited, fetch_again, again_at, again_read, part_read, shutdown,
  stop_page,
}
use lunefetch.Page.Holds.{
  is_of, runs, Holds, fresh, call-Holds, holders-map, runs-map, All-mapped, IsEntered,
}
use lunefetch.Page.Starts.{at-Holds, settle-Holds}
use lunefetch.Page.Answers.{clean_part-Holds}

-- A call of the queue that gives no slot back.
pub step-Holds :
    (now : ℕ) (c : Call) (others : List ℕ) (p : Page)
    → ((b : ℕ → ℕ) (m : Manager) → IsBooked b m → IsBooked b (step now c m))
    → Holds others p
    → Holds others (call (step now c) p)
step-Holds now c others p books h =
    call-Holds (step now c) others p (step-slots now c (fresh p) h.distinct).2
      (books (λ x. count x p.queue.active) (fresh p) (λ x. omega arith)) h

-- Neither a cancel nor a limiter changes who runs.
workers-Holds :
    (f : Worker → Worker) (others : List ℕ) (p : Page)
    → ((v : Worker) → (f v).id ≡ v.id)
    → ((e : Entry) (v : Worker) → is_of e (f v) ≡ is_of e v)
    → ((v : Worker) → IsEntered p.active v → IsEntered p.active (f v))
    → Holds others p
    → Holds others (record p { workers = map f p.workers })
workers-Holds f others p ids same still h = record {
  distinct = h.distinct;
  owned = λ x. omega (arith, h.owned x, holders-map f x p.workers ids);
  listed =
      All-map (λ e. runs e p.workers ≡ true) _ p.active (λ e r. runs-map f e p.workers (same e) ∙ r)
        h.listed;
  entered =
      All-mapped (IsEntered p.active) (IsEntered p.active) f p.workers (λ v. still v) h.entered;
}

module _ (others : List ℕ) where
  cancel_key-Holds :
      (key : ℕ) (p : Page)
      → Holds others p
      → Holds others (record p { workers = map (cancel_key key) p.workers })
  cancel_key-Holds key p h =
      workers-Holds (cancel_key key) others p (λ v. refl) (λ e v. refl) (λ v k. k) h

  cancel_active-Holds : (id : ℕ) (p : Page) → Holds others p → Holds others (cancel_active id p)
  unfolding cancel_active
  cancel_active-Holds id p h = elim (Option-cases (first (λ e. e.id == id) p.active)) [
    | inl idle ↦ rw (idle, cancel_active) h
    | inr (e, found) ↦ rw (found, cancel_active) (cancel_key-Holds e.key p h)
  ]

  each-Holds :
      {A : Type 0} (f : A → Page → Page) (xs : List A) (p : Page)
      → ((x : A) (q : Page) → Holds others q → Holds others (f x q))
      → Holds others p
      → Holds others (each f xs p)
  each-Holds f [] p keeps h = h
  each-Holds f (x ∷ xs) p keeps h = each-Holds f xs (f x p) keeps (keeps x p h)

  module _ (now : ℕ) where
    pub pause_download-Holds :
        (id : ℕ) (p : Page) → Holds others p → Holds others (pause_download now id p)
    unfolding pause_download
    pause_download-Holds id p h = elim (Bool-cases (has_entry p.active id)) [
      | inl running ↦ rw running (at-Holds _ others _ (cancel_active-Holds id p h))
      | inr idle ↦ rw idle h
    ]

    pub pause_all-Holds : (p : Page) → Holds others p → Holds others (pause_all now p)
    unfolding pause_all
    pause_all-Holds p h =
        each-Holds _ p.active _ (λ e q k. at-Holds _ others q k)
          (each-Holds _ p.active p (λ e q k. cancel_active-Holds e.id q k) h)

    pub try_start-Holds :
        (id : ℕ) (p : Page) → Holds others p → Holds others (call (λ m. (try_start now id m).1) p)
    unfolding step
    try_start-Holds id p h =
        step-Holds now (Queue.tries_start id) others p (λ b m k. try_start-IsBooked b now id m k) h

    pub cancel_download-Holds :
        (id : ℕ) (p : Page) → Holds others p → Holds others (cancel_download now id p)
    unfolding cancel_download
    cancel_download-Holds id p h = at-Holds _ others _ (cancel_active-Holds id p h)

    pub page_delete-Holds :
        (id : ℕ) (p : Page) → Holds others p → Holds others (page_delete now id p)
    unfolding page_delete step
    page_delete-Holds id p h = at-Holds _ others _ (
        step-Holds now (Queue.removes id) others (cancel_download now id p)
          (λ b m k. remove-IsBooked b now id m k) (cancel_download-Holds id p h))

    pub limited-Holds :
        (id : ℕ) (limit : ℤ) (o : Result (Unit {0}) × Conn) (p : Page)
        → Holds others p
        → Holds others (limited id limit o p)
    limited-Holds id limit (err e, c) p h = at-Holds c others p h
    limited-Holds id limit (ok a, c) p h = elim (Option-cases (first (λ e. e.id == id) p.active)) [
      | inl idle ↦ rw (idle, limited) (at-Holds c others p h)
      | inr (e, found) ↦
          rw (found, limited)
            (workers-Holds (set_limiter e.key limit) others (at c p) (λ v. refl) (λ e v. refl)
              (λ v k. k) (at-Holds c others p h))
    ]

    fetch_again-Holds :
        (id : ℕ) (dest : String) (keeps_file keeps_part : Bool) (o : Result (Unit {0}) × Conn)
        (p : Page)
        → Holds others p
        → Holds others (fetch_again now id dest keeps_file keeps_part o p)
    unfolding resume_download
    fetch_again-Holds id dest keeps_file keeps_part (err e, c) p h = at-Holds c others p h
    fetch_again-Holds id dest true keeps_part (ok a, c) p h = at-Holds c others p h
    fetch_again-Holds id dest false keeps_part (ok a, c) p h =
        try_start-Holds id (clean_part keeps_part id (set_dest dest none (at c p))) (
          clean_part-Holds keeps_part id others _ (record {
            distinct = h.distinct;
            owned = h.owned;
            listed = h.listed;
            entered = h.entered;
          }))

    pub again_read-Holds :
        (w : World) (cfg : Settings) (id : ℕ) (keeps_file keeps_part : Bool)
        (o : Result (Option DownloadRecord) × Conn) (p : Page)
        → Holds others p
        → Holds others (again_read w cfg now id keeps_file keeps_part o p)
    again_read-Holds w cfg id kf kp (err e, c) p h = at-Holds c others p h
    again_read-Holds w cfg id kf kp (ok none, c) p h = at-Holds c others p h
    again_read-Holds w cfg id kf kp (ok (some r), c) p h =
        elim (Option-cases (safe_path w (dir_of cfg r.save_dir) r.filename)) [
          | inl unsafe ↦ rw (unsafe, again_at) (at-Holds c others p h)
          | inr (dest, e) ↦
              rw (e, again_at)
                (fetch_again-Holds id dest kf kp
                  (reset_progress id Status.pending now (cancel_active id (at c p)).queue.state) _
                  (cancel_active-Holds id (at c p) (at-Holds c others p h)))
        ]

    pub part_read-Holds :
        (fails : Bool) (id : ℕ) (o : Result (Option DownloadRecord) × Conn) (p : Page)
        → Holds others p
        → Holds others (part_read fails id o p)
    part_read-Holds fails id (err e, c) p h = at-Holds c others p h
    part_read-Holds fails id (ok none, c) p h = at-Holds c others p h
    part_read-Holds fails id (ok (some r), c) p h =
        clean_part-Holds fails id others (at c p) (at-Holds c others p h)

-- The prompts of a shutdown give their slots back.
paused-Holds :
    (now : ℕ) (ids : List ℕ) (p : Page)
    → Holds ids p
    → Holds [] (each (λ id. settle now id Status.paused) ids p)
paused-Holds now [] p h = h
paused-Holds now (id ∷ ids) p h = paused-Holds now ids _ (settle-Holds now id Status.paused ids p h)

pub shutdown-Holds : (now : ℕ) (p : Page) → Holds [] p → Holds [] (shutdown now p)
unfolding shutdown
shutdown-Holds now p h =
    elim p.shutting_down as (λ b. Holds [] (if b then p else stop_page now p)) [
      | true ↦ h
      | false ↦ paused-Holds now p.pending _ (
          each-Holds p.pending _ p.active _
            (λ e q k. at-Holds _ p.pending _ (cancel_key-Holds p.pending e.key q k))
            (record {
              distinct = h.distinct;
              owned = λ x. omega (arith, h.owned x);
              listed = h.listed;
              entered = h.entered;
            }))
    ]
