-- ===== src/Page/Slots.antt =====
-- Each slot of the queue has one holder, over any series of events of internal/ui/pages/downloads.go.
use lunefetch.Base.{
  ℕ, ◌==◌, List, [], ◌∷◌, Option, Bool, contains, arith, Bool-cases, Option-cases, inl, inr, String,
}
use lunefetch.Base.Int64.{ℤ}
use lunefetch.Storage.Sql.{Conn, first}
use lunefetch.Storage.Downloads.{get_download, update_speed_limit}
use lunefetch.Queue
use lunefetch.Queue.{
  Manager, Call, step, new_manager, try_start, remove, drain, set_max_concurrent, enqueue_scheduled,
}
use lunefetch.Queue.Books.{enqueue_scheduled-IsBooked, set_max-IsBooked, drain-IsBooked}
use lunefetch.Page.{World, Settings, Page}
use lunefetch.Core.Files.{Contents, MoveFaults}
use lunefetch.Page.Finish.{Answer}
use lunefetch.Page.Actions.{
  resume_download, move_in_queue, page_speed_limit, download_again, remove_part_file,
}
use lunefetch.Page.Life.{
  Event, begins, returns, finishes, answers, pauses, pauses_all, resumes, moves, cancels, deletes,
  limits, fetches_again, drops_part, shuts_down, sets_max, schedules, adds, drains, begin_start,
  answer, happen, live,
}
use lunefetch.Page.Holds.{Holds, count-remove}
use lunefetch.Page.Starts.{at-Holds, start_download-Holds, start_returned-Holds}
use lunefetch.Page.Answers.{worker_done-Holds, answer_prompt-Holds}
use lunefetch.Page.{new_page}
use lunefetch.Page.Commands.{
  step-Holds, shutdown-Holds, pause_download-Holds, pause_all-Holds, try_start-Holds,
  cancel_download-Holds, page_delete-Holds, limited-Holds, again_read-Holds, part_read-Holds,
}

begin_start-Holds :
    (w : World) (cfg : Settings) (now id : ℕ) (p : Page)
    → Holds [] p
    → Holds [] (begin_start w cfg now id p)
unfolding begin_start
begin_start-Holds w cfg now id p h = elim (Bool-cases (contains p.starting id)) [
  | inr other ↦ rw (other, begin_start) h
  | inl due ↦
      rw (due, begin_start)
        (start_download-Holds now [] w cfg id _ (record {
          distinct = h.distinct;
          owned = λ x. omega (arith, h.owned x, count-remove id x p.starting due);
          listed = h.listed;
          entered = h.entered;
        }))
]

answer-Holds :
    (w : World) (faults : MoveFaults) (now id : ℕ) (a : Answer) (p : Page)
    → Holds [] p
    → Holds [] (answer w faults now id a p)
unfolding answer
answer-Holds w faults now id a p h = elim (Option-cases (first (λ q. q.id == id) p.prompts)) [
  | inl unasked ↦ rw (unasked, answer) h
  | inr (q, found) ↦ rw (found, answer) (answer_prompt-Holds now [] w faults q a p h)
]

happen-Holds :
    (w : World) (cfg : Settings) (now : ℕ) (e : Event) (p : Page)
    → Holds [] p
    → Holds [] (happen w cfg now e p)
unfolding happen step resume_download move_in_queue page_speed_limit download_again remove_part_file
happen-Holds w cfg now (begins id) p h = begin_start-Holds w cfg now id p h
happen-Holds w cfg now (returns key failed bytes) p h = start_returned-Holds key failed bytes [] p h
happen-Holds w cfg now (finishes faults key) p h = worker_done-Holds now [] faults key p h
happen-Holds w cfg now (answers faults id a) p h = answer-Holds w faults now id a p h
happen-Holds w cfg now (pauses id) p h = pause_download-Holds [] now id p h
happen-Holds w cfg now pauses_all p h = pause_all-Holds [] now p h
happen-Holds w cfg now (resumes id) p h = try_start-Holds [] now id p h
happen-Holds w cfg now (moves id delta) p h = at-Holds _ [] p h
happen-Holds w cfg now (cancels id) p h = cancel_download-Holds [] now id p h
happen-Holds w cfg now (deletes id) p h = page_delete-Holds [] now id p h
happen-Holds w cfg now (limits id limit) p h =
    limited-Holds [] now id limit (update_speed_limit id limit now p.queue.state) p h
happen-Holds w cfg now (fetches_again id kf kp) p h =
    again_read-Holds [] now w cfg id kf kp (get_download id p.queue.state) p h
happen-Holds w cfg now (drops_part fails id) p h =
    part_read-Holds [] now fails id (get_download id p.queue.state) p h
happen-Holds w cfg now shuts_down p h = shutdown-Holds now p h
happen-Holds w cfg now (sets_max n) p h =
    step-Holds now (Queue.sets_max n) [] p (λ b m k. set_max-IsBooked b now n m k) h
happen-Holds w cfg now (schedules id) p h =
    step-Holds now (Queue.schedules id) [] p (λ b m k. enqueue_scheduled-IsBooked b now id m k) h
happen-Holds w cfg now (adds id) p h = try_start-Holds [] now id p h
happen-Holds w cfg now drains p h =
    step-Holds now Queue.drains [] p (λ b m k. drain-IsBooked b now m k) h

live-Holds :
    (w : World) (cfg : Settings) (es : List (ℕ × Event)) (p : Page)
    → Holds [] p
    → Holds [] (live w cfg es p)
unfolding live
live-Holds w cfg [] p h = h
live-Holds w cfg ((now, e) ∷ es) p h =
    live-Holds w cfg es (happen w cfg now e p) (happen-Holds w cfg now e p h)

-- From a new page, after any series of events, whatever statements of the database, moves and removals
-- of files fail: no download has two slots of the queue, each slot is held once, by a start to come, by
-- a goroutine or by an open prompt, none of these is without a slot, and the entries of the page are
-- those of the goroutines that run Start.
pub live-owned :
    (w : World) (cfg : Settings) (es : List (ℕ × Event)) (c : Conn) (n : ℤ) (window : Bool)
    (parts : ℕ → Option Contents) (dests : String → Option Contents)
    → Holds [] (live w cfg es (new_page c n window parts dests))
unfolding new_page new_manager
live-owned w cfg es c n window parts dests =
    live-Holds w cfg es (new_page c n window parts dests)
      (record { distinct = tt; owned = λ x. omega arith; listed = tt; entered = tt })
