-- ===== src/Page/Life.antt =====
-- The events of the page: what its goroutines, the user and the rest of the application do.
use lunefetch.Base.{ℕ, ◌==◌, if◌then◌else◌, List, [], ◌∷◌, Option, none, some, Bool, contains}
use lunefetch.Base.Int64.{ℤ}
use lunefetch.Storage.Sql.{first}
use lunefetch.Core.Files.{Contents, MoveFaults}
use lunefetch.Queue.{set_max_concurrent, try_start, enqueue_scheduled, drain}
use lunefetch.Page.{World, Settings, Page, call, remove_first, start_download, start_returned}
use lunefetch.Page.Finish.{worker_done, Answer, answer_prompt}
use lunefetch.Page.Actions.{
  pause_download, pause_all, resume_download, move_in_queue, cancel_download, page_delete,
  page_speed_limit, download_again, remove_part_file, shutdown,
}

pub data Event : Type 0 where
  -- The goroutine `go m.startFn(id)` runs.
  begins : ℕ → Event
  -- Start of the worker `key` returns, with whether it failed and what is in its part file.
  returns : ℕ → Bool → Option Contents → Event
  -- The rest of that goroutine.
  finishes : MoveFaults → ℕ → Event
  -- A button of the dialog of a download is pressed.
  answers : MoveFaults → ℕ → Answer → Event
  pauses : ℕ → Event
  pauses_all : Event
  resumes : ℕ → Event
  moves : ℕ → ℤ → Event
  cancels : ℕ → Event
  deletes : ℕ → Event
  limits : ℕ → ℤ → Event
  fetches_again : ℕ → Bool → Bool → Event
  drops_part : Bool → ℕ → Event
  shuts_down : Event
  -- Calls of the queue by the settings, the scheduler, a new download and the start of the
  -- application.
  sets_max : ℤ → Event
  schedules : ℕ → Event
  adds : ℕ → Event
  drains : Event

unfoldable pub begin_start : World → Settings → ℕ → ℕ → Page → Page
unfolding start_download remove_first
begin_start w cfg now id p =
    if contains p.starting id
    then start_download w cfg now id
        (record p { starting = remove_first (λ x. x == id) p.starting })
    else p

unfoldable pub answer : World → MoveFaults → ℕ → ℕ → Answer → Page → Page
unfolding answer_prompt
answer w faults now id a p = elim (first (λ q. q.id == id) p.prompts) [
  | none ↦ p
  | some q ↦ answer_prompt w faults now q a p
]

-- An event at a time of the clock.
unfoldable pub happen : World → Settings → ℕ → Event → Page → Page
unfolding begin_start answer
happen w cfg now (begins id) p = begin_start w cfg now id p
happen w cfg now (returns key failed bytes) p = start_returned key failed bytes p
happen w cfg now (finishes faults key) p = worker_done faults now key p
happen w cfg now (answers faults id a) p = answer w faults now id a p
happen w cfg now (pauses id) p = pause_download now id p
happen w cfg now pauses_all p = pause_all now p
happen w cfg now (resumes id) p = resume_download now id p
happen w cfg now (moves id delta) p = move_in_queue id delta p
happen w cfg now (cancels id) p = cancel_download now id p
happen w cfg now (deletes id) p = page_delete now id p
happen w cfg now (limits id limit) p = page_speed_limit now id limit p
happen w cfg now (fetches_again id keeps_file keeps_part) p =
    download_again w cfg now id keeps_file keeps_part p
happen w cfg now (drops_part fails id) p = remove_part_file fails id p
happen w cfg now shuts_down p = shutdown now p
happen w cfg now (sets_max n) p = call (set_max_concurrent now n) p
happen w cfg now (schedules id) p = call (λ m. (enqueue_scheduled now id m).1) p
happen w cfg now (adds id) p = call (λ m. (try_start now id m).1) p
happen w cfg now drains p = call (drain now) p

-- A series of events, each at a time.
unfoldable pub live : World → Settings → List (ℕ × Event) → Page → Page
unfolding happen
live w cfg [] p = p
live w cfg ((now, e) ∷ es) p = live w cfg es (happen w cfg now e p)
