-- ===== src/Page/Shutdown.antt =====
-- Shutdown of internal/ui/pages/downloads.go stops the goroutines that run, and none begins after it.
use lunefetch.Base.{
  ℕ, ◌≤◌, ◌==◌, ◌≡◌, refl, if◌then◌else◌, List, [], ◌∷◌, true, false, ◌&&◌, ◌⊎◌, All, All-map,
  arith, Bool-cases, inl, inr, length,
}
use lunefetch.Storage.Downloads.{get_download, update_speed_limit}
use lunefetch.Page.{World, Settings, Entry, Worker, Page, is_running}
use lunefetch.Page.Actions.{
  cancel_key, pause_all, resume_download, move_in_queue, cancel_download, page_delete,
  page_speed_limit, download_again, remove_part_file, shutdown, stop_all, stop_page,
}
use lunefetch.Page.Life.{
  Event, begins, returns, finishes, answers, pauses, pauses_all, resumes, moves, cancels, deletes,
  limits, fetches_again, drops_part, shuts_down, sets_max, schedules, adds, drains, happen, live,
}
use lunefetch.Page.Holds.{lists, Holds, All-mapped}
use lunefetch.Page.Closing.{
  IsStopped, IsClosed, queue-IsClosed, begin_start-IsClosed, start_returned-IsClosed, length-map,
}
use lunefetch.Page.Holds.{IsEntered}
use lunefetch.Page.Quiet.{
  worker_done-IsClosed, answer-IsClosed, cancel_active-IsClosed, each-IsClosed,
  pause_download-IsClosed, limited-IsClosed, again_read-IsClosed, part_read-IsClosed,
}

pause_all-IsClosed : (n now : ℕ) (p : Page) → IsClosed n p → IsClosed n (pause_all now p)
unfolding pause_all
pause_all-IsClosed n now p k =
    each-IsClosed n now _ p.active _ (λ e q h. queue-IsClosed n _ _ q h)
      (each-IsClosed n now _ p.active p (λ e q h. cancel_active-IsClosed n now e.id q h) k)

shutdown-again : (n now : ℕ) (p : Page) → IsClosed n p → IsClosed n (shutdown now p)
unfolding shutdown
shutdown-again n now p k =
    (elim p.shutting_down as (λ b. b ≡ true → IsClosed n (if b then p else stop_page now p)) [
      | true ↦ λ e. k
      | false ↦ λ e. cc
    ])
      k.closing

happen-IsClosed :
    (n : ℕ) (w : World) (cfg : Settings) (now : ℕ) (e : Event) (p : Page)
    → IsClosed n p
    → IsClosed n (happen w cfg now e p)
unfolding happen resume_download move_in_queue cancel_download page_delete page_speed_limit
    download_again remove_part_file
happen-IsClosed n w cfg now (begins id) p k = begin_start-IsClosed n w cfg now id p k
happen-IsClosed n w cfg now (returns key failed bytes) p k =
    start_returned-IsClosed n key failed bytes p k
happen-IsClosed n w cfg now (finishes faults key) p k = worker_done-IsClosed n now faults key p k
happen-IsClosed n w cfg now (answers faults id a) p k = answer-IsClosed n now w faults id a p k
happen-IsClosed n w cfg now (pauses id) p k = pause_download-IsClosed n now id p k
happen-IsClosed n w cfg now pauses_all p k = pause_all-IsClosed n now p k
happen-IsClosed n w cfg now (resumes id) p k = queue-IsClosed n _ _ p k
happen-IsClosed n w cfg now (moves id delta) p k = queue-IsClosed n _ _ p k
happen-IsClosed n w cfg now (cancels id) p k =
    queue-IsClosed n _ _ _ (cancel_active-IsClosed n now id p k)
happen-IsClosed n w cfg now (deletes id) p k =
    queue-IsClosed n _ _ _ (cancel_active-IsClosed n now id p k)
happen-IsClosed n w cfg now (limits id limit) p k =
    limited-IsClosed n now id limit (update_speed_limit id limit now p.queue.state) p k
happen-IsClosed n w cfg now (fetches_again id kf kp) p k =
    again_read-IsClosed n now w cfg id kf kp (get_download id p.queue.state) p k
happen-IsClosed n w cfg now (drops_part fails id) p k =
    part_read-IsClosed n now fails id (get_download id p.queue.state) p k
happen-IsClosed n w cfg now shuts_down p k = shutdown-again n now p k
happen-IsClosed n w cfg now (sets_max m) p k = queue-IsClosed n _ _ p k
happen-IsClosed n w cfg now (schedules id) p k = queue-IsClosed n _ _ p k
happen-IsClosed n w cfg now (adds id) p k = queue-IsClosed n _ _ p k
happen-IsClosed n w cfg now drains p k = queue-IsClosed n _ _ p k

live-IsClosed :
    (n : ℕ) (w : World) (cfg : Settings) (es : List (ℕ × Event)) (p : Page)
    → IsClosed n p
    → IsClosed n (live w cfg es p)
unfolding live
live-IsClosed n w cfg [] p k = k
live-IsClosed n w cfg ((now, e) ∷ es) p k =
    live-IsClosed n w cfg es (happen w cfg now e p) (happen-IsClosed n w cfg now e p k)

-- The loop over the entries: each goroutine is stopped, or its entry is still to come.
record IsStopping (n : ℕ) (es : List Entry) (p : Page) : Type 0 where
  closing : p.shutting_down ≡ true
  unasked : p.pending ≡ []
  reached :
      All (λ v. is_running v ≡ true → (v.cancelled ≡ true) ⊎ (lists es v.id v.key ≡ true)) p.workers
  bounded : length p.workers ≤ n

cancelled_or_later :
    (e : Entry) (es : List Entry) (v : Worker)
    → (is_running v ≡ true → (v.cancelled ≡ true) ⊎ (lists (e ∷ es) v.id v.key ≡ true))
    → is_running v ≡ true
    → ((cancel_key e.key v).cancelled ≡ true) ⊎ (lists es v.id v.key ≡ true)
cancelled_or_later e es v h r = elim (h r) [
  | inl stops ↦ inl (ground (arith, stops))
  | inr later ↦ elim (Bool-cases (e.id == v.id && e.key == v.key)) [
    | inl this ↦ inl (ground (arith, this))
    | inr other ↦ inr (rw other at later)
  ]
]

stop_all-IsClosed :
    (n now : ℕ) (es : List Entry) (p : Page) → IsStopping n es p → IsClosed n (stop_all now es p)
stop_all-IsClosed n now [] p h = record {
  closing = h.closing;
  unasked = h.unasked;
  stopped =
      All-map (λ v. is_running v ≡ true → (v.cancelled ≡ true) ⊎ (false ≡ true)) IsStopped p.workers
        (λ v k r. elim (k r) [ inl stops ↦ stops | inr no_entry ↦ cc ]) h.reached;
  bounded = h.bounded;
}
stop_all-IsClosed n now (e ∷ es) p h = stop_all-IsClosed n now es _ (record {
  closing = h.closing;
  unasked = h.unasked;
  reached =
      All-mapped
        (λ v. is_running v ≡ true → (v.cancelled ≡ true) ⊎ (lists (e ∷ es) v.id v.key ≡ true)) _
        (cancel_key e.key) p.workers (λ v k. cancelled_or_later e es v k) h.reached;
  bounded = omega (arith, length-map (cancel_key e.key) p.workers, h.bounded);
})

shutdown-IsClosed :
    (now : ℕ) (p : Page)
    → Holds [] p
    → p.shutting_down ≡ false
    → IsClosed (length p.workers) (shutdown now p)
unfolding shutdown
shutdown-IsClosed now p h open_yet =
    let stopped : IsClosed (length p.workers)
        (stop_all now p.active (record p { shutting_down = true; pending = [] })) =
      stop_all-IsClosed (length p.workers) now p.active _ (record {
        closing = refl;
        unasked = refl;
        reached = All-map (IsEntered p.active) _ p.workers (λ v k r. inr (k r)) h.entered;
        bounded = omega arith;
      }) in
    (elim p.shutting_down
        as (λ b. b ≡ false → IsClosed (length p.workers) (if b then p else stop_page now p)) [
          | true ↦ λ e. cc
          | false ↦ λ e.
              each-IsClosed (length p.workers) now _ p.pending _
                (λ id q k. queue-IsClosed _ _ _ q k) stopped
        ])
      open_yet

-- After Shutdown of a page whose slots have their holders, over any series of events: the page goes on
-- to shut down, no prompt is pending, no goroutine was added to those that there were, and each one
-- that still runs Start has its context cancelled.
pub live-shutdown :
    (w : World) (cfg : Settings) (es : List (ℕ × Event)) (now : ℕ) (p : Page)
    → Holds [] p
    → p.shutting_down ≡ false
    → IsClosed (length p.workers) (live w cfg es (shutdown now p))
live-shutdown w cfg es now p h open_yet =
    live-IsClosed (length p.workers) w cfg es (shutdown now p) (shutdown-IsClosed now p h open_yet)
