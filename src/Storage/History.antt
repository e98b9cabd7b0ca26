-- ===== src/Storage/History.antt =====
-- The history of the table `downloads`: soft delete, restore, purge and reset of
-- internal/storage/state.go.
pub mod Restore
use lunefetch.Base.{
  ℕ, ◌==◌, ltb, leb, if◌then◌else◌, List, Option, none, some, Bool, true, false, ◌&&◌, not, length,
}
use lunefetch.Base.Int64.{pos}
use lunefetch.Storage.Record.{Status, DownloadRecord, ChunkRecord, Db, is_some}
use lunefetch.Storage.Sql.{
  M, Error, pure, fail, ◌>>=◌, ◌>>◌, exec, exec_for, query, transaction, update_where, select,
  first, order_by,
}
use lunefetch.Storage.Chunks.{update_progress}
use lunefetch.Storage.Downloads.{is_live, has_id}

-- UPDATE downloads SET … WHERE id = id AND deleted_at IS NULL
unfoldable pub update_live : ℕ → (DownloadRecord → DownloadRecord) → Db → Db
update_live id f db = record db {
  downloads = update_where (λ r. has_id id r && is_live r) f db.downloads;
}

unfoldable pub delete_download : ℕ → ℕ → M (Unit {0})
unfolding update_live
delete_download id now =
    exec (update_live id (λ r. record r { deleted_at = some now; updated_at = now }))

-- Every chunk of the download back to the start.
unfoldable pub reset_chunks : ℕ → ℕ → (ChunkRecord → ChunkRecord) → Db → Db
unfolding update_progress
reset_chunks id now f =
    update_progress id now (λ _. true)
      (λ c. record (f c) { downloaded_size = pos 0; status = Status.pending })

unfoldable pub reset_progress : ℕ → Status → ℕ → M (Unit {0})
unfolding update_live reset_chunks
reset_progress id status now = transaction do
  affected ←
      exec_for (λ db. length (select (λ r. has_id id r && is_live r) db.downloads))
        (update_live id (λ r. record r {
          downloaded_size = pos 0;
          status = status;
          queue_position = none;
          updated_at = now;
        }))
  if affected == 0
      then fail Error.not_found
      else exec (reset_chunks id now (λ c. record c { error = none; retry_count = 0 }))

unfoldable pub delete_with_file : ℕ → ℕ → M (Unit {0})
unfolding update_live reset_chunks
delete_with_file id now = transaction do
  exec (
      update_live id
        (λ r. record r { deleted_at = some now; updated_at = now; downloaded_size = pos 0 }))
  exec (reset_chunks id now (λ c. c))

abbrev deleted_geb : Option ℕ → Option ℕ → Bool
deleted_geb (some a) (some b) = leb b a
deleted_geb (some a) none = true
deleted_geb none _ = false

unfoldable pub list_deleted : M (List DownloadRecord)
list_deleted = query (λ db.
    order_by (λ a b. deleted_geb a.deleted_at b.deleted_at)
      (select (λ r. is_some r.deleted_at) db.downloads))

unfoldable pub restore_rows : ℕ → ℕ → Db → Db
restore_rows id now db = record db {
  downloads =
      update_where (λ r. has_id id r && is_some r.deleted_at)
        (λ r. record r {
          deleted_at = none;
          status = Status.paused;
          queue_position = none;
          scheduled_at = none;
          updated_at = now;
        })
        db.downloads;
}

unfoldable pub restore_download : ℕ → ℕ → M (Unit {0})
unfolding restore_rows
restore_download id now = exec (restore_rows id now)

-- DELETE FROM downloads WHERE p; the chunks of the rows follow (ON DELETE CASCADE).
unfoldable pub delete_rows : (DownloadRecord → Bool) → Db → Db
delete_rows p db = record db {
  downloads = select (λ r. not (p r)) db.downloads;
  chunks =
      select (λ c. not (is_some (first (λ r. p r && has_id c.download_id r) db.downloads)))
        db.chunks;
}

unfoldable pub purge_download : ℕ → M (Unit {0})
unfolding delete_rows
purge_download id = exec (delete_rows (λ r. has_id id r && is_some r.deleted_at))

unfoldable pub purge_all_deleted : M (Unit {0})
unfolding delete_rows
purge_all_deleted = exec (delete_rows (λ r. is_some r.deleted_at))

abbrev pub is_before : ℕ → Option ℕ → Bool
is_before cutoff none = false
is_before cutoff (some t) = ltb t cutoff

-- The cutoff in whole seconds, as it is formatted.
unfoldable pub purge_older_than : ℕ → M (Unit {0})
unfolding delete_rows
purge_older_than cutoff = exec (delete_rows (λ r. is_before cutoff r.deleted_at))
