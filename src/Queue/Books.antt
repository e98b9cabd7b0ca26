-- ===== src/Queue/Books.antt =====
-- The books of the queue: each slot that a call takes is a start, and only OnDone gives one back.
use lunefetch.Base.{
  ℕ, ◌+◌, ◌==◌, ◌≡◌, ap, if◌then◌else◌, [], ◌∷◌, Option, none, some, Bool, true, contains, arith,
  Bool-cases, inl, inr,
}
use lunefetch.Base.Int64.{ℤ}
use lunefetch.Base.Counts.{count, count-append, count-filter}
use lunefetch.Storage.Record.{DownloadRecord, is_some}
use lunefetch.Storage.Sql.{Conn, Result, ok, err}
use lunefetch.Storage.Downloads.{get_download, set_scheduled_at}
use lunefetch.Queue.{
  Manager, has_slot, ignoring, launch, report, start_or_enqueue, start_read, try_start, drain_queue,
  set_max_concurrent, forget, on_done, outcome, enqueue, enqueue_scheduled, remove, drain,
}
use lunefetch.Queue.Active.{drain_loop-keeps}

-- Each running download stands in `base` or in the starts.
abbrev pub IsBooked : (ℕ → ℕ) → Manager → Type 0
IsBooked base m = (x : ℕ) → count x m.active ≡ base x + count x m.started

module _ (base : ℕ → ℕ) where
  launch-IsBooked : (now id : ℕ) (m : Manager) → IsBooked base m → IsBooked base (launch now id m)
  unfolding launch
  launch-IsBooked now id m b x = omega (arith, b x, count-append x m.started (id ∷ []))

  drain_queue-IsBooked :
      (now : ℕ) (m : Manager) → IsBooked base m → IsBooked base (drain_queue now m)
  unfolding drain_queue
  drain_queue-IsBooked now m b =
      drain_loop-keeps (IsBooked base) now (λ m c b. b)
        (λ m id free idle b. launch-IsBooked now id m b) _ [] m b

  report-IsBooked :
      (m : Manager) (r : Result (Unit {0}) × Conn) → IsBooked base m → IsBooked base (report m r).1
  report-IsBooked m (ok a, c) b = b
  report-IsBooked m (err e, c) b = b

  start_or_enqueue-IsBooked :
      (now id : ℕ) (m : Manager) → IsBooked base m → IsBooked base (start_or_enqueue now id m).1
  start_or_enqueue-IsBooked now id m b = elim (Bool-cases (has_slot m)) [
    | inl free ↦ rw free (launch-IsBooked now id m b)
    | inr full ↦ rw full (report-IsBooked m (enqueue now id m.state) b)
  ]

  start_read-IsBooked :
      (now id : ℕ) (m : Manager) (r : Result (Option DownloadRecord) × Conn)
      → IsBooked base m
      → IsBooked base (start_read now id m r).1
  start_read-IsBooked now id m (err e, c) b = b
  start_read-IsBooked now id m (ok none, c) b = b
  start_read-IsBooked now id m (ok (some r), c) b = elim (Bool-cases (is_some r.deleted_at)) [
    | inl gone ↦ rw gone b
    | inr live ↦ rw live (start_or_enqueue-IsBooked now id (record m { state = c }) b)
  ]

  pub try_start-IsBooked :
      (now id : ℕ) (m : Manager) → IsBooked base m → IsBooked base (try_start now id m).1
  unfolding try_start
  try_start-IsBooked now id m b = elim (Bool-cases (contains m.active id)) [
    | inl running ↦ rw running b
    | inr idle ↦ rw idle (start_read-IsBooked now id m (get_download id m.state) b)
  ]

  outcome-IsBooked : (r : Result Bool × Manager) → IsBooked base r.1 → IsBooked base (outcome r).1
  outcome-IsBooked (ok a, m) b = b
  outcome-IsBooked (err e, m) b = b

  pub enqueue_scheduled-IsBooked :
      (now id : ℕ) (m : Manager) → IsBooked base m → IsBooked base (enqueue_scheduled now id m).1
  unfolding enqueue_scheduled
  enqueue_scheduled-IsBooked now id m b = elim (Bool-cases (contains m.active id)) [
    | inl running ↦ rw running b
    | inr idle ↦ rw idle (
        outcome-IsBooked (start_or_enqueue now id (ignoring (set_scheduled_at id none now) m))
          (start_or_enqueue-IsBooked now id _ b))
  ]

  pub set_max-IsBooked :
      (now : ℕ) (n : ℤ) (m : Manager) → IsBooked base m → IsBooked base (set_max_concurrent now n m)
  unfolding set_max_concurrent
  set_max-IsBooked now n m b = drain_queue-IsBooked now _ b

  pub drain-IsBooked : (now : ℕ) (m : Manager) → IsBooked base m → IsBooked base (drain now m)
  unfolding drain
  drain-IsBooked now m b = drain_queue-IsBooked now m b

  pub remove-IsBooked :
      (now id : ℕ) (m : Manager) → IsBooked base m → IsBooked base (remove now id m)
  unfolding remove
  remove-IsBooked now id m b = elim (Bool-cases (contains m.active id)) [
    | inl running ↦ rw running b
    | inr idle ↦ rw idle b
  ]

-- The slots but the one of `id`.
abbrev pub without : ℕ → (ℕ → ℕ) → ℕ → ℕ
without id base x = if x == id then 0 else base x

-- OnDone of a running download gives its slot back.
pub on_done-IsBooked :
    (now id : ℕ) (m : Manager)
    → contains m.active id ≡ true
    → m.started ≡ []
    → IsBooked (without id (λ x. count x m.active)) (on_done now id m)
unfolding on_done forget
on_done-IsBooked now id m running none_yet = rw running (
    drain_queue-IsBooked _ now _
      (λ x. omega (arith, count-filter id x m.active, ap (count x) none_yet)))
