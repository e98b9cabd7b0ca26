-- ===== src/Queue.antt =====
-- internal/queue/manager.go: which downloads run, and which wait. A call of `Manager` holds its
-- mutex, so a call is one step; the time of the clock is an argument. `go m.startFn(id)` adds `id`
-- to `started`.
pub mod Active
pub mod Books
pub mod Slots
pub mod Drain
pub mod Work
pub mod Conserve
pub mod Steps
use lunefetch.Base.{
  ℕ, zero, suc, ◌+◌, ◌==◌, if◌then◌else◌, List, [], ◌∷◌, ◌++◌, Option, none, some, Bool, true,
  false, ◌&&◌, not, length, contains, filter_by,
}
use lunefetch.Base.Int64.{ℤ, pos, ltb_ℤ}
use lunefetch.Storage.Record.{Status, status_eq, DownloadRecord, is_some}
use lunefetch.Storage.Sql.{M, Conn, Error, Result, ok, err}
use lunefetch.Storage.Downloads.{get_download, set_scheduled_at}
use lunefetch.Storage.Queue.{set_queue_position, enqueue_download, mark_downloading, next_in_queue}

pub record Manager : Type 0 where
  pub state : Conn
  pub max_concurrent : ℤ
  pub active : List ℕ
  pub started : List ℕ

unfoldable pub new_manager : Conn → ℤ → Manager
new_manager state max_concurrent = record {
  state = state;
  max_concurrent = max_concurrent;
  active = [];
  started = [];
}

-- len(m.active) < m.maxConcurrent
abbrev pub has_slot : Manager → Bool
has_slot m = ltb_ℤ (pos (length m.active)) m.max_concurrent

-- A call of the state whose error is ignored.
abbrev pub ignoring : {A : Type 0} → M A → Manager → Manager
ignoring op m = record m { state = (op m.state).1 }

-- m.active[id] = struct{}{}, MarkDownloading, go m.startFn(id)
unfoldable pub launch : ℕ → ℕ → Manager → Manager
launch now id m =
    ignoring (mark_downloading id now)
      (record m { active = id ∷ m.active; started = m.started ++ id ∷ [] })

-- What `enqueue` does with the record that it read.
abbrev pub enqueue_found : ℕ → ℕ → Option DownloadRecord → M (Unit {0})
enqueue_found now id none c = (ok tt, c)
enqueue_found now id (some r) c =
    if is_some r.deleted_at
    then (ok tt, c)
    else if status_eq r.status Status.queued && is_some r.queue_position
    then (ok tt, c)
    else enqueue_download id now c

abbrev pub enqueue_read : ℕ → ℕ → Result (Option DownloadRecord) × Conn → Result (Unit {0}) × Conn
enqueue_read now id (err e, c) = (err e, c)
enqueue_read now id (ok found, c) = enqueue_found now id found c

unfoldable pub enqueue : ℕ → ℕ → M (Unit {0})
enqueue now id c = enqueue_read now id (get_download id c)

-- The result of a call: whether it started the download, or an error.
abbrev pub report : Manager → Result (Unit {0}) × Conn → Result Bool × Manager
report m (ok _, c) = (ok false, record m { state = c })
report m (err e, c) = (err e, record m { state = c })

abbrev pub start_or_enqueue : ℕ → ℕ → Manager → Result Bool × Manager
start_or_enqueue now id m =
    if has_slot m then (ok true, launch now id m) else report m (enqueue now id m.state)

abbrev pub start_found : ℕ → ℕ → Manager → Option DownloadRecord → Result Bool × Manager
start_found now id m none = (ok false, m)
start_found now id m (some r) =
    if is_some r.deleted_at then (ok false, m) else start_or_enqueue now id m

abbrev pub start_read :
    ℕ → ℕ → Manager → Result (Option DownloadRecord) × Conn → Result Bool × Manager
start_read now id m (err e, c) = (err e, record m { state = c })
start_read now id m (ok found, c) = start_found now id (record m { state = c }) found

unfoldable pub try_start : ℕ → ℕ → Manager → Result Bool × Manager
try_start now id m =
    if contains m.active id then (ok true, m) else start_read now id m (get_download id m.state)

-- One round of `drainQueue`: `none` when the loop returns, and otherwise the row of the round.
abbrev pub drawn : Result (Option DownloadRecord) → List ℕ → Option ℕ
drawn (err e) seen = none
drawn (ok none) seen = none
drawn (ok (some r)) seen = if contains seen r.id then none else some r.id

abbrev pub drain_one : ℕ → ℕ → Manager → Manager
drain_one now id m =
    if contains m.active id then ignoring (set_queue_position id none now) m else launch now id m

-- The loop of `drainQueue` on fuel, with whether it returned before the fuel ran out.
unfoldable pub drain_loop : ℕ → ℕ → List ℕ → Manager → Manager × Bool
drain_loop now zero seen m = (m, false)
drain_loop now (suc fuel) seen m = elim (has_slot m) [
  | false ↦ (m, true)
  | true ↦
      let next = next_in_queue m.state in
      let m' = record m { state = next.1 } in
      elim (drawn next.0 seen) [
        | none ↦ (m', true)
        | some id ↦ drain_loop now fuel (id ∷ seen) (drain_one now id m')
      ]
]

-- A round sees a row that no earlier round saw, so the rows and one more round are enough.
unfoldable pub drain_queue : ℕ → Manager → Manager
drain_queue now m = (drain_loop now (suc (length m.state.db.downloads)) [] m).0

unfoldable pub set_max_concurrent : ℕ → ℤ → Manager → Manager
set_max_concurrent now n m =
    drain_queue now (record m { max_concurrent = if ltb_ℤ n (pos 1) then pos 1 else n })

-- delete(m.active, id)
unfoldable pub forget : ℕ → List ℕ → List ℕ
forget id xs = filter_by (λ x. not (x == id)) xs

unfoldable pub on_done : ℕ → ℕ → Manager → Manager
on_done now id m =
    if contains m.active id
    then drain_queue now
        (ignoring (set_queue_position id none now) (record m { active = forget id m.active }))
    else m

abbrev pub outcome : Result Bool × Manager → Result (Unit {0}) × Manager
outcome (ok _, m) = (ok tt, m)
outcome (err e, m) = (err e, m)

unfoldable pub enqueue_scheduled : ℕ → ℕ → Manager → Result (Unit {0}) × Manager
enqueue_scheduled now id m =
    let m' = ignoring (set_scheduled_at id none now) m in
    if contains m'.active id then (ok tt, m') else outcome (start_or_enqueue now id m')

unfoldable pub active_count : Manager → ℕ
active_count m = length m.active

unfoldable pub remove : ℕ → ℕ → Manager → Manager
remove now id m = if contains m.active id then m else ignoring (set_queue_position id none now) m

unfoldable pub drain : ℕ → Manager → Manager
drain now m = drain_queue now m

-- The calls, and the manager after one.
pub data Call : Type 0 where
  sets_max : ℤ → Call
  tries_start : ℕ → Call
  ends : ℕ → Call
  schedules : ℕ → Call
  removes : ℕ → Call
  drains : Call

unfoldable pub step : ℕ → Call → Manager → Manager
step now (sets_max n) m = set_max_concurrent now n m
step now (tries_start id) m = (try_start now id m).1
step now (ends id) m = on_done now id m
step now (schedules id) m = (enqueue_scheduled now id m).1
step now (removes id) m = remove now id m
step now drains m = drain now m
