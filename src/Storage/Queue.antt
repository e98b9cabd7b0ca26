-- ===== src/Storage/Queue.antt =====
-- The queue of the table `downloads`: SetQueuePosition, EnqueueDownload, MarkDownloading,
-- NextInQueue, ShiftQueuePositions and MoveQueuePosition of internal/storage/state.go.
pub mod Next
pub mod Waiting
pub mod Enqueued
pub mod Fifo
use lunefetch.Base.{
  ℕ, zero, suc, ◌+◌, ◌-◌, ◌==◌, ltb, leb, if◌then◌else◌, List, [], ◌∷◌, map, Option, none, some,
  Bool, true, false, ◌&&◌, ◌||◌, not, length, max,
}
use lunefetch.Base.Int64.{ℤ, pos, negsuc, add64, ltb_ℤ, pos_part}
use lunefetch.Storage.Record.{Status, status_eq, DownloadRecord, Db}
use lunefetch.Storage.Sql.{
  M, Error, pure, ◌>>=◌, ◌>>◌, exec, query, transaction, update_where, select, first, order_by,
}
use lunefetch.Storage.Downloads.{is_live, has_id, update_download, position_leb}

-- status = 'queued' AND deleted_at IS NULL
abbrev pub is_queued : DownloadRecord → Bool
is_queued r = status_eq r.status Status.queued && is_live r

unfoldable pub set_queue_position : ℕ → Option ℕ → ℕ → M (Unit {0})
unfolding update_download
set_queue_position id p now =
    exec (update_download id (λ r. record r { queue_position = p; updated_at = now }))

abbrev pub position_or_zero : Option ℕ → ℕ
position_or_zero none = 0
position_or_zero (some p) = p

-- SELECT COALESCE(MAX(queue_position), 0) FROM downloads WHERE status = 'queued' AND …
unfoldable pub max_position : List DownloadRecord → ℕ
max_position [] = 0
max_position (r ∷ rs) =
    if is_queued r
    then max (position_or_zero r.queue_position) (max_position rs)
    else max_position rs

unfoldable pub enqueue_rows : ℕ → ℕ → Db → Db
enqueue_rows id now db = record db {
  downloads =
      update_where (λ r. has_id id r && is_live r)
        (λ r. record r {
          status = Status.queued;
          queue_position = some (max_position db.downloads + 1);
          updated_at = now;
        })
        db.downloads;
}

unfoldable pub enqueue_download : ℕ → ℕ → M (Unit {0})
unfolding enqueue_rows
enqueue_download id now = exec (enqueue_rows id now)

unfoldable pub mark_rows : ℕ → ℕ → Db → Db
unfolding update_download
mark_rows id now =
    update_download id
      (λ r. record r { status = Status.downloading; queue_position = none; updated_at = now })

unfoldable pub mark_downloading : ℕ → ℕ → M (Unit {0})
unfolding mark_rows
mark_downloading id now = exec (mark_rows id now)

-- ORDER BY queue_position ASC NULLS LAST, created_at ASC
abbrev pub key_leb : Option ℕ → ℕ → Option ℕ → ℕ → Bool
key_leb none c none d = leb c d
key_leb none c (some q) d = false
key_leb (some p) c none d = true
key_leb (some p) c (some q) d = if p == q then leb c d else ltb p q

abbrev pub queue_leb : DownloadRecord → DownloadRecord → Bool
queue_leb a b = key_leb a.queue_position a.created_at b.queue_position b.created_at

abbrev pub earlier : DownloadRecord → Option DownloadRecord → Option DownloadRecord
earlier r none = some r
earlier r (some s) = if queue_leb r s then some r else some s

-- LIMIT 1; of equal rows the first in the table.
unfoldable pub next_row : List DownloadRecord → Option DownloadRecord
next_row [] = none
next_row (r ∷ rs) = if is_queued r then earlier r (next_row rs) else next_row rs

unfoldable pub next_in_queue : M (Option DownloadRecord)
next_in_queue = query (λ db. next_row db.downloads)

-- ORDER BY queue_position ASC: SQLite puts NULL first.
abbrev pub shift_leb : DownloadRecord → DownloadRecord → Bool
shift_leb a b = shift_key a.queue_position b.queue_position
  where
    shift_key : Option ℕ → Option ℕ → Bool
    shift_key none p = true
    shift_key (some a) none = false
    shift_key (some a) (some b) = leb a b

abbrev pub place : ℕ → ℕ → Db → Db
place id p = update_download id (λ r. record r { queue_position = some p })

-- The loop over `ids`: the row at index i gets the position i + 1.
unfoldable pub renumber : List ℕ → ℕ → M (Unit {0})
unfolding update_download
renumber [] i = pure tt
renumber (id ∷ ids) i = do exec (place id (i + 1)); renumber ids (i + 1)

unfoldable pub queue_ids : Db → List ℕ
queue_ids db = map (λ r. r.id) (order_by shift_leb (select is_queued db.downloads))

unfoldable pub shift_queue_positions : M (Unit {0})
unfolding renumber queue_ids
shift_queue_positions = do ids ← query queue_ids; transaction (renumber ids 0)

-- `pos.Int64 + int64(delta)`, clamped to the compacted range.
unfoldable pub move_target : ℕ → ℤ → ℕ → ℕ
unfolding add64
move_target p delta queue_len =
    let moved = add64 (pos p) delta in
    let floored = if ltb_ℤ moved (pos 1) then pos 1 else moved in
    if ltb_ℤ (pos queue_len) floored then queue_len else pos_part floored

abbrev pub stands_at : ℕ → Option ℕ → Bool
stands_at q none = false
stands_at q (some n) = n == q

-- The other row at `q` goes to `p`.
abbrev pub vacate : ℕ → ℕ → ℕ → Db → Db
vacate id p q db = record db {
  downloads =
      update_where (λ r. stands_at q r.queue_position && not (has_id id r) && is_queued r)
        (λ r. record r { queue_position = some p }) db.downloads;
}

-- Swaps with the row at the new position.
unfoldable pub swap_positions : ℕ → ℕ → ℕ → M (Unit {0})
unfolding update_download
swap_positions id p q = transaction do exec (vacate id p q); exec (place id q)

abbrev pub queued_position : Option DownloadRecord → Option ℕ
queued_position none = none
queued_position (some r) = r.queue_position

unfoldable pub move_from : ℕ → ℤ → Option ℕ → M (Unit {0})
unfolding move_target swap_positions
move_from id delta none = pure tt
move_from id delta (some p) = do
  queue_len ← query (λ db. length (select is_queued db.downloads))
  let q = move_target p delta queue_len
  if q == p then pure tt else swap_positions id p q

unfoldable pub move_queue_position : ℕ → ℤ → M (Unit {0})
unfolding move_from
move_queue_position id (pos zero) = pure tt
move_queue_position id delta = do
  shift_queue_positions
  found ← query (λ db. first (λ r. has_id id r && is_queued r) db.downloads)
  move_from id delta (queued_position found)
