-- ===== src/Storage/Record.antt =====
-- The rows of the tables `downloads` and `chunks`, and their states.
-- (internal/storage/state.go: DownloadRecord, ChunkRecord, migrate)
use Prim.Native.String.{String}
use lunefetch.Base.{ℕ, ◌==◌, List, Option, none, some, Bool, true, false}
use lunefetch.Base.Int64.{ℤ}

-- The texts that the code stores in a column `status`.
pub data Status : Type 0 where
  pending downloading queued scheduled paused completed failed cancelled retrying : Status

abbrev pub status_code : Status → ℕ
status_code pending = 0
status_code downloading = 1
status_code queued = 2
status_code scheduled = 3
status_code paused = 4
status_code completed = 5
status_code failed = 6
status_code cancelled = 7
status_code retrying = 8

-- Equality of the stored texts.
abbrev pub status_eq : Status → Status → Bool
status_eq a b = status_code a == status_code b

pub record DownloadRecord : Type 0 where
  pub id : ℕ
  pub url : String
  pub filename : String
  pub save_dir : String
  pub category : String
  pub speed_limit : ℤ
  pub total_size : ℤ
  pub downloaded_size : ℤ
  pub status : Status
  pub supports_ranges : Bool
  pub num_chunks : ℕ
  pub etag : Option String
  pub last_modified : Option String
  pub queue_position : Option ℕ
  pub scheduled_at : Option String
  pub created_at : ℕ
  pub updated_at : ℕ
  pub deleted_at : Option ℕ

pub record ChunkRecord : Type 0 where
  pub id : ℕ
  pub download_id : ℕ
  pub chunk_index : ℕ
  pub start_byte : ℤ
  pub end_byte : ℤ
  pub downloaded_size : ℤ
  pub status : Status
  pub error : Option String
  pub retry_count : ℕ

-- The tables, with the next key of each AUTOINCREMENT.
pub record Db : Type 0 where
  pub downloads : List DownloadRecord
  pub chunks : List ChunkRecord
  pub next_download_id : ℕ
  pub next_chunk_id : ℕ

abbrev pub is_some {ℓ} : {A : Type ℓ} → Option A → Bool
is_some none = false
is_some (some _) = true
