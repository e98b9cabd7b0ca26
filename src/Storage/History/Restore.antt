-- ===== src/Storage/History/Restore.antt =====
-- The trash: what a soft delete and a restore make of the rows.
use lunefetch.Base.{ℕ, none, some}
use lunefetch.Storage.Record.{Status, DownloadRecord}

-- The row as a restore leaves it.
abbrev pub restored : ℕ → DownloadRecord → DownloadRecord
restored now r = record r {
  deleted_at = none;
  status = Status.paused;
  queue_position = none;
  scheduled_at = none;
  updated_at = now;
}

abbrev trashed : ℕ → DownloadRecord → DownloadRecord
trashed now r = record r { deleted_at = some now; updated_at = now }
