-- ===== src/Queue/Steps.antt =====
-- Each call of the manager, with no database error.
use lunefetch.Base.{
  ℕ, ◌≡◌, refl, sym, ◌∙◌, subst, if◌then◌else◌, List, [], ◌∷◌, Option, none, some, Bool, true,
  false, contains, All, All-map, Bool-cases, inl, inr,
}
use lunefetch.Base.Int64.{ℤ}
use lunefetch.Storage.Record.{DownloadRecord, is_some}
use lunefetch.Storage.Sql.{Conn, Result, ok, err, exec, first}
use lunefetch.Storage.Rows.{All-update_where}
use lunefetch.Storage.Downloads.{has_id, update_download, get_download, set_scheduled_at}
use lunefetch.Storage.Queue.{is_queued, set_queue_position}
use lunefetch.Queue.{
  Manager, new_manager, has_slot, ignoring, launch, drain_queue, forget, on_done, enqueue, report,
  start_or_enqueue, start_found, try_start, set_max_concurrent, outcome, enqueue_scheduled, remove,
  drain, Call, sets_max, tries_start, ends, schedules, removes, drains, step,
}
use lunefetch.Queue.Active.{contains-forget}
use lunefetch.Queue.Work.{IsClear, IsSettled, launch-IsSettled, launch-rows, drain_queue_works}
use lunefetch.Queue.Conserve.{
  IsWorking, exec_eq, query_eq, enqueue-Enqueued, Enqueued-IsSettled, update-IsClear,
}

if-idle :
    (b : Bool) (r s : DownloadRecord)
    → is_queued r ≡ false
    → is_queued s ≡ false
    → is_queued (if b then r else s) ≡ false
if-idle true r s hr hs = hr
if-idle false r s hr hs = hs

module _ (id : ℕ) (f : DownloadRecord → DownloadRecord) (m : Manager)
    (ids : (r : DownloadRecord) → (f r).id ≡ r.id)
    (waits : (r : DownloadRecord) → is_queued (f r) ≡ is_queued r) where
  -- A write that neither queues a row nor takes one out of the queue.
  touch-IsSettled : IsSettled m → IsSettled (ignoring (exec (update_download id f)) m)
  unfolding update_download
  touch-IsSettled s = rw (exec_eq (update_download id f) m.state s.fine) (record {
    fine = s.fine;
    clear = update-IsClear (has_id id) f m.active m.state.db.downloads ids waits s.clear;
  })

  touch-IsWorking : IsWorking m → IsWorking (ignoring (exec (update_download id f)) m)
  unfolding update_download
  touch-IsWorking w = record {
    settled = touch-IsSettled w.settled;
    busy = rw (exec_eq (update_download id f) m.state w.settled.fine) (elim w.busy [
      | inl full ↦ inl full
      | inr idle ↦ inr (
          All-update_where (λ r. is_queued r ≡ false) (λ r. is_queued r ≡ false) (has_id id) f
            m.state.db.downloads (λ r h. if-idle (has_id id r) (f r) r (waits r ∙ h) h) idle)
    ]);
  }

-- A launch where nothing waits.
launch-IsWorking :
    (now id : ℕ) (m : Manager) → has_slot m ≡ true → IsWorking m → IsWorking (launch now id m)
launch-IsWorking now id m free w = record {
  settled = (launch-IsSettled now id m.active m w.settled w.settled.clear).0;
  busy = elim w.busy [
    | inl full ↦ cc (sym free ∙ full)
    | inr idle ↦ inr (
        subst (All (λ r. is_queued r ≡ false)) (sym (launch-rows now id m w.settled.fine).0) (
          All-update_where (λ r. is_queued r ≡ false) (λ r. is_queued r ≡ false) (has_id id) _
            m.state.db.downloads (λ r h. if-idle (has_id id r) _ r refl h) idle))
  ];
}

report-IsWorking :
    (m : Manager) (r : Result (Unit {0}) × Conn)
    → IsWorking (record m { state = r.1 })
    → IsWorking (report m r).1
report-IsWorking m (ok a, c) w = w
report-IsWorking m (err e, c) w = w

start_or_enqueue-IsWorking :
    (now id : ℕ) (m : Manager)
    → contains m.active id ≡ false
    → IsWorking m
    → IsWorking (start_or_enqueue now id m).1
start_or_enqueue-IsWorking now id m idle w = elim (Bool-cases (has_slot m)) [
  | inl free ↦ rw free (launch-IsWorking now id m free w)
  | inr full ↦ rw full (
      report-IsWorking m (enqueue now id m.state) (record {
        settled =
            Enqueued-IsSettled id now m _ (enqueue-Enqueued now id m.state w.settled.fine) idle
              w.settled;
        busy = inl full;
      }))
]

start_read-IsWorking :
    (now id : ℕ) (m : Manager) (o : Option DownloadRecord)
    → contains m.active id ≡ false
    → IsWorking m
    → IsWorking (start_found now id m o).1
start_read-IsWorking now id m none idle w = w
start_read-IsWorking now id m (some r) idle w = elim (Bool-cases (is_some r.deleted_at)) [
  | inl gone ↦ rw gone w
  | inr live ↦ rw live (start_or_enqueue-IsWorking now id m idle w)
]

try_start-IsWorking : (now id : ℕ) (m : Manager) → IsWorking m → IsWorking (try_start now id m).1
unfolding try_start get_download
try_start-IsWorking now id m w = elim (Bool-cases (contains m.active id)) [
  | inl running ↦ rw running w
  | inr idle ↦ rw idle (
      rw (query_eq (λ db. first (has_id id) db.downloads) m.state w.settled.fine)
        (start_read-IsWorking now id m (first (has_id id) m.state.db.downloads) idle w))
]

forget-IsSettled :
    (id : ℕ) (m : Manager) → IsSettled m → IsSettled (record m { active = forget id m.active })
forget-IsSettled id m s = record {
  fine = s.fine;
  clear =
      All-map (λ r. is_queued r ≡ true → contains m.active r.id ≡ false) _ m.state.db.downloads
        (λ r h q. contains-forget id r.id m.active (h q)) s.clear;
}

drain_queue-IsWorking : (now : ℕ) (m : Manager) → IsSettled m → IsWorking (drain_queue now m)
drain_queue-IsWorking now m s =
    let (busy, settled) = drain_queue_works now m s in record { settled = settled; busy = busy }

on_done-IsWorking : (now id : ℕ) (m : Manager) → IsWorking m → IsWorking (on_done now id m)
unfolding on_done set_queue_position
on_done-IsWorking now id m w = elim (Bool-cases (contains m.active id)) [
  | inl running ↦ rw running (
      drain_queue-IsWorking now _ (
        touch-IsSettled id (λ r. record r { queue_position = none; updated_at = now })
          (record m { active = forget id m.active }) (λ r. refl) (λ r. refl)
          (forget-IsSettled id m w.settled)))
  | inr idle ↦ rw idle w
]

outcome-IsWorking : (r : Result Bool × Manager) → IsWorking r.1 → IsWorking (outcome r).1
outcome-IsWorking (ok b, m) w = w
outcome-IsWorking (err e, m) w = w

enqueue_scheduled-IsWorking :
    (now id : ℕ) (m : Manager) → IsWorking m → IsWorking (enqueue_scheduled now id m).1
unfolding enqueue_scheduled set_scheduled_at
enqueue_scheduled-IsWorking now id m w =
    let m' : Manager =
      ignoring (exec (update_download id (λ r. record r { scheduled_at = none; updated_at = now })))
        m in
    let w' : IsWorking m' =
      touch-IsWorking id (λ r. record r { scheduled_at = none; updated_at = now }) m (λ r. refl)
        (λ r. refl) w in
    elim (Bool-cases (contains m.active id)) [
      | inl running ↦ rw running w'
      | inr idle ↦ rw idle (
          outcome-IsWorking (start_or_enqueue now id m')
            (start_or_enqueue-IsWorking now id m' idle w'))
    ]

remove-IsWorking : (now id : ℕ) (m : Manager) → IsWorking m → IsWorking (remove now id m)
unfolding remove set_queue_position
remove-IsWorking now id m w = elim (Bool-cases (contains m.active id)) [
  | inl running ↦ rw running w
  | inr idle ↦ rw idle (
      touch-IsWorking id (λ r. record r { queue_position = none; updated_at = now }) m (λ r. refl)
        (λ r. refl) w)
]

limit-IsSettled :
    (mc : ℤ) (m : Manager) → IsSettled m → IsSettled (record m { max_concurrent = mc })
limit-IsSettled mc m s = record { fine = s.fine; clear = s.clear }

step-IsWorking : (now : ℕ) (call : Call) (m : Manager) → IsWorking m → IsWorking (step now call m)
unfolding step set_max_concurrent drain
step-IsWorking now (sets_max n) m w = drain_queue-IsWorking now _ (limit-IsSettled _ m w.settled)
step-IsWorking now (tries_start id) m w = try_start-IsWorking now id m w
step-IsWorking now (ends id) m w = on_done-IsWorking now id m w
step-IsWorking now (schedules id) m w = enqueue_scheduled-IsWorking now id m w
step-IsWorking now (removes id) m w = remove-IsWorking now id m w
step-IsWorking now drains m w = drain_queue-IsWorking now m w.settled

-- A series of calls, each with the time of the clock.
unfoldable pub run : List (ℕ × Call) → Manager → Manager
run [] m = m
run ((now, call) ∷ calls) m = run calls (step now call m)

-- After any series of calls of the manager with no database error, from a state where no running
-- download waits and no slot is free while one waits: that is still so.
pub run-IsWorking : (calls : List (ℕ × Call)) (m : Manager) → IsWorking m → IsWorking (run calls m)
unfolding run
run-IsWorking [] m w = w
run-IsWorking ((now, call) ∷ calls) m w =
    run-IsWorking calls (step now call m) (step-IsWorking now call m w)

new_manager-IsSettled : (c : Conn) (n : ℤ) → c.faults ≡ [] → IsSettled (new_manager c n)
unfolding new_manager contains
new_manager-IsSettled c n h = record { fine = h; clear = idle c.db.downloads }
  where
    idle : (rs : List DownloadRecord) → IsClear [] rs
    idle [] = tt
    idle (r ∷ rs) = ((λ _. refl), idle rs)

-- With no database error: from a new manager whose queue was drained once, after any series of
-- calls, no running download waits, and every slot is taken or no download waits.
pub run_fresh-IsWorking :
    (calls : List (ℕ × Call)) (now : ℕ) (c : Conn) (n : ℤ)
    → c.faults ≡ []
    → IsWorking (run calls (drain now (new_manager c n)))
unfolding drain
run_fresh-IsWorking calls now c n h =
    let (busy, settled) = drain_queue_works now (new_manager c n) (new_manager-IsSettled c n h) in
    run-IsWorking calls _ (record { settled = settled; busy = busy })
