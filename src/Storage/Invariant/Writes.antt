-- ===== src/Storage/Invariant/Writes.antt =====
-- The writing operations of `StateManager`, and the invariant over any series of them.
use Prim.Native.String.{String}
use lunefetch.Base.{ℕ, ◌==◌, ◌≢◌, refl, List, Option, none, some, Bool, ◌&&◌, arith, inl, inr}
use lunefetch.Base.Int64.{ℤ}
use lunefetch.Storage.Record.{Status}
use lunefetch.Storage.Sql.{Conn}
use lunefetch.Storage.Keeps
use lunefetch.Storage.Keeps.{Keeps}
use lunefetch.Storage.Chunks.{create_chunks, update_chunk_progress}
use lunefetch.Storage.Downloads.{
  has_id, is_live, update_download, create_download, create_download_with_chunks,
  update_speed_limit, reconcile_interrupted, update_download_status, update_download_filename,
  update_total_size, set_validators, set_scheduled_at, normalize_categories,
}
use lunefetch.Storage.Queue.{
  mark_rows, set_queue_position, enqueue_download, enqueue_rows, mark_downloading,
  shift_queue_positions, move_queue_position,
}
use lunefetch.Storage.History.{
  update_live, delete_download, reset_progress, delete_with_file, restore_download, restore_rows,
  purge_download, purge_all_deleted, purge_older_than,
}
use lunefetch.Storage.Invariant.Slots.{enqueue_rows-HasSlots}
use lunefetch.Storage.Invariant.Operations.{
  IsValid, update_downloads-IsValid, insert_download-IsValid, update_progress-IsValid,
}
use lunefetch.Storage.Invariant.Positions.{
  shift_queue_positions-IsValid, move_queue_position-IsValid,
}
use lunefetch.Storage.Invariant.Removal.{
  delete_rows-IsValid, delete_with_file-IsValid, reset_progress-IsValid,
}
use lunefetch.Storage.Invariant.Transactions.{
  update-Keeps, create_chunks-IsValid, create_download_with_chunks-IsValid,
  update_total_size-IsValid, normalize_categories-IsValid,
}

-- A call of a writing operation, at a time of the clock.
pub data Write : Type 0 where
  creates : String → String → String → String → ℤ → Bool → ℕ → Write
  creates_with_chunks :
      String → String → String → String → ℤ → Bool → List ℤ → List ℤ → String → String → Write
  creates_chunks : ℕ → List ℤ → List ℤ → Write
  updates_chunk_progress : ℕ → ℕ → ℤ → Status → Write
  updates_speed_limit : ℕ → ℤ → Write
  reconciles : Write
  updates_status : ℕ → Status → Write
  updates_filename : ℕ → String → Write
  updates_total_size : ℕ → ℤ → Write
  sets_validators : ℕ → String → String → Write
  schedules : ℕ → Option String → Write
  leaves_queue : ℕ → Write
  enqueues : ℕ → Write
  marks_downloading : ℕ → Write
  shifts : Write
  moves : ℕ → ℤ → Write
  deletes : ℕ → Write
  resets : ℕ → Status → Write
  deletes_with_file : ℕ → Write
  restores : ℕ → Write
  purges : ℕ → Write
  purges_all : Write
  purges_older : ℕ → Write
  normalizes : Write

-- The tables after the call, whether it succeeds or fails.
unfoldable pub apply : ℕ → Write → Conn → Conn
apply now (creates u f d k t r n) c = (create_download u f d k t r n now c).1
apply now (creates_with_chunks u f d k t r ss es e m) c =
    (create_download_with_chunks u f d k t r ss es e m now c).1
apply now (creates_chunks id ss es) c = (create_chunks id ss es c).1
apply now (updates_chunk_progress id i n s) c = (update_chunk_progress id i n s now c).1
apply now (updates_speed_limit id l) c = (update_speed_limit id l now c).1
apply now reconciles c = (reconcile_interrupted now c).1
apply now (updates_status id s) c = (update_download_status id s now c).1
apply now (updates_filename id f) c = (update_download_filename id f now c).1
apply now (updates_total_size id n) c = (update_total_size id n now c).1
apply now (sets_validators id e m) c = (set_validators id e m now c).1
apply now (schedules id at) c = (set_scheduled_at id at now c).1
apply now (leaves_queue id) c = (set_queue_position id none now c).1
apply now (enqueues id) c = (enqueue_download id now c).1
apply now (marks_downloading id) c = (mark_downloading id now c).1
apply now shifts c = (shift_queue_positions c).1
apply now (moves id d) c = (move_queue_position id d c).1
apply now (deletes id) c = (delete_download id now c).1
apply now (resets id s) c = (reset_progress id s now c).1
apply now (deletes_with_file id) c = (delete_with_file id now c).1
apply now (restores id) c = (restore_download id now c).1
apply now (purges id) c = (purge_download id c).1
apply now purges_all c = (purge_all_deleted c).1
apply now (purges_older t) c = (purge_older_than t c).1
apply now normalizes c = (normalize_categories c).1

-- No caller of UpdateDownloadStatus stores `queued`: a row joins the queue by EnqueueDownload.
abbrev pub IsUsed : Write → Type 0
IsUsed (updates_status id s) = s ≢ Status.queued
IsUsed _ = Unit

pub apply-IsValid :
    (now : ℕ) (w : Write) → IsUsed w → (c : Conn) → IsValid c.db → IsValid (apply now w c).db
unfolding apply update_download update_live create_download update_chunk_progress update_speed_limit
    reconcile_interrupted update_download_status update_download_filename set_validators
    set_scheduled_at set_queue_position enqueue_download enqueue_rows mark_downloading mark_rows
    delete_download restore_download restore_rows purge_download purge_all_deleted purge_older_than
apply-IsValid now (creates u f d k t r n) used =
    Keeps.exec_for-Keeps IsValid _ _ (λ db v. insert_download-IsValid _ now db v)
apply-IsValid now (creates_with_chunks u f d k t r ss es e m) used =
    create_download_with_chunks-IsValid u f d k t r ss es e m now
apply-IsValid now (creates_chunks id ss es) used = create_chunks-IsValid id ss es
apply-IsValid now (updates_chunk_progress id i n s) used = Keeps.exec-Keeps IsValid _ (λ db v.
    update_progress-IsValid id now (λ c. c.chunk_index == i)
      (λ c. record c { downloaded_size = n; status = s }) db (λ c. refl) v)
apply-IsValid now (updates_speed_limit id l) used =
    update-Keeps (has_id id) (λ r. record r { speed_limit = l; updated_at = now }) (λ r. refl)
      (λ r. refl) (λ r. inl refl)
apply-IsValid now reconciles used =
    update-Keeps _ (λ r. record r { status = Status.paused; updated_at = now }) (λ r. refl)
      (λ r. refl) (λ r. inr refl)
apply-IsValid now (updates_status id s) used =
    update-Keeps (has_id id) (λ r. record r { status = s; updated_at = now }) (λ r. refl)
      (λ r. refl) (λ r. inr (ground arith))
apply-IsValid now (updates_filename id f) used =
    update-Keeps (has_id id) (λ r. record r { filename = f; updated_at = now }) (λ r. refl)
      (λ r. refl) (λ r. inl refl)
apply-IsValid now (updates_total_size id n) used = update_total_size-IsValid id n now
apply-IsValid now (sets_validators id e m) used =
    update-Keeps (has_id id) _ (λ r. refl) (λ r. refl) (λ r. inl refl)
apply-IsValid now (schedules id at) used =
    update-Keeps (has_id id) (λ r. record r { scheduled_at = at; updated_at = now }) (λ r. refl)
      (λ r. refl) (λ r. inl refl)
apply-IsValid now (leaves_queue id) used =
    update-Keeps (has_id id) (λ r. record r { queue_position = none; updated_at = now }) (λ r. refl)
      (λ r. refl) (λ r. inr (ground arith))
apply-IsValid now (enqueues id) used = Keeps.exec-Keeps IsValid _ (λ db v.
    update_downloads-IsValid (λ r. has_id id r && is_live r) _ db (λ r. refl) (λ r. refl)
      (unfold enqueue_rows in enqueue_rows-HasSlots id now db v.slots) v)
apply-IsValid now (marks_downloading id) used =
    update-Keeps (has_id id) _ (λ r. refl) (λ r. refl) (λ r. inr refl)
apply-IsValid now shifts used = shift_queue_positions-IsValid
apply-IsValid now (moves id d) used = move_queue_position-IsValid id d
apply-IsValid now (deletes id) used =
    update-Keeps _ (λ r. record r { deleted_at = some now; updated_at = now }) (λ r. refl)
      (λ r. refl) (λ r. inr (ground arith))
apply-IsValid now (resets id s) used = reset_progress-IsValid id s now
apply-IsValid now (deletes_with_file id) used = delete_with_file-IsValid id now
apply-IsValid now (restores id) used = update-Keeps _ _ (λ r. refl) (λ r. refl) (λ r. inr refl)
apply-IsValid now (purges id) used = Keeps.exec-Keeps IsValid _ (delete_rows-IsValid _)
apply-IsValid now purges_all used = Keeps.exec-Keeps IsValid _ (delete_rows-IsValid _)
apply-IsValid now (purges_older t) used = Keeps.exec-Keeps IsValid _ (delete_rows-IsValid _)
apply-IsValid now normalizes used = normalize_categories-IsValid
