-- ===== src/Core/Progress.antt =====
-- The bookkeeping of a download: NewDownloader, reconcileDiskProgress, verifyOnDisk, flushProgress
-- and the end of Start, of internal/core/downloader.go.
pub mod Disk
use lunefetch.Base.{
  ℕ, ◌+◌, ◌==◌, if◌then◌else◌, List, [], ◌∷◌, ◌++◌, map, Option, none, some, Bool, true, false,
  ◌&&◌, ◌||◌, not, length,
}
use lunefetch.Base.Int64.{ℤ, pos, add64, sub64, leb_ℤ, ltb_ℤ, pos_part, neg_part}
use lunefetch.Storage.Record.{Status, status_eq}
use lunefetch.Core.Chunks.{Chunk}

pub record ChunkProgress : Type 0 where
  pub chunk_index : ℕ
  pub downloaded_size : ℤ
  pub total_size : ℤ
  pub status : Status

abbrev pub eq_ℤ : ℤ → ℤ → Bool
eq_ℤ a b = leb_ℤ a b && leb_ℤ b a

-- The entry that NewDownloader makes for a chunk.
unfoldable pub chunk_progress : Chunk → ChunkProgress
chunk_progress c =
    let total = add64 (sub64 c.end c.start) (pos 1) in
    record {
      chunk_index = c.index;
      downloaded_size = c.downloaded;
      total_size = total;
      status =
          if leb_ℤ total c.downloaded && ltb_ℤ (pos 0) total
          then Status.completed
          else Status.pending;
    }

unfoldable pub sum_downloaded : ℤ → List ChunkProgress → ℤ
sum_downloaded acc [] = acc
sum_downloaded acc (c ∷ cs) = sum_downloaded (add64 acc c.downloaded_size) cs

pub record Downloader : Type 0 where
  pub total_size : ℤ
  pub chunks : List Chunk
  pub num_chunks : ℤ
  pub retries : ℤ
  pub progress : List ChunkProgress
  pub downloaded_size : ℤ

unfoldable pub new_downloader : ℤ → List Chunk → ℤ → ℤ → Downloader
unfolding chunk_progress sum_downloaded
new_downloader total_size chunks num_chunks retries =
    let progress = map chunk_progress chunks in
    record {
      total_size = total_size;
      chunks = chunks;
      num_chunks = num_chunks;
      retries = retries;
      progress = progress;
      downloaded_size = sum_downloaded (pos 0) progress;
    }

-- max(onDisk - start, 0)
unfoldable pub available_from : ℤ → ℤ → ℤ
available_from on_disk start =
    let available = sub64 on_disk start in if ltb_ℤ available (pos 0) then pos 0 else available

-- A round of the loop of reconcileDiskProgress.
unfoldable pub reconcile_chunk : ℤ → Chunk → ChunkProgress → ChunkProgress
unfolding available_from
reconcile_chunk on_disk c p =
    if leb_ℤ p.downloaded_size (pos 0)
    then p
    else if ltb_ℤ (available_from on_disk c.start) p.downloaded_size
    then record p {
      downloaded_size = available_from on_disk c.start;
      status = if status_eq p.status Status.completed then Status.pending else p.status;
    }
    else p

-- The rounds that the loop does not skip add up.
unfoldable pub reconciled_total : ℤ → ℤ → List Chunk → List ChunkProgress → ℤ
unfolding reconcile_chunk
reconciled_total on_disk acc (c ∷ cs) (p ∷ ps) =
    reconciled_total on_disk
      (if leb_ℤ p.downloaded_size (pos 0)
        then acc
        else add64 acc (reconcile_chunk on_disk c p).downloaded_size)
      cs ps
reconciled_total on_disk acc cs ps = acc

unfoldable pub reconcile_chunks : ℤ → List Chunk → List ChunkProgress → List ChunkProgress
unfolding reconcile_chunk
reconcile_chunks on_disk (c ∷ cs) (p ∷ ps) =
    reconcile_chunk on_disk c p ∷ reconcile_chunks on_disk cs ps
reconcile_chunks on_disk cs ps = ps

pub data DiskError : Type 0 where
  stat_failed : DiskError
  incomplete : DiskError
  size_mismatch : DiskError
  sync_failed : DiskError
  cancelled : DiskError
  chunks_failed : DiskError

-- The size that Stat reports, or `none` if it fails. The caller keeps `chunks` and `progress` of one
-- length.
unfoldable pub reconcile_disk_progress : Option ℤ → Downloader → Option DiskError × Downloader
unfolding reconcile_chunks reconciled_total
reconcile_disk_progress none d = (some stat_failed, d)
reconcile_disk_progress (some on_disk) d = (
  none,
  record d {
    progress = reconcile_chunks on_disk d.chunks d.progress;
    downloaded_size = reconciled_total on_disk (pos 0) d.chunks d.progress;
  },
)

abbrev pub check_size : ℤ → Option ℤ → Option DiskError
check_size total none = some stat_failed
check_size total (some size) =
    if ltb_ℤ (pos 0) total && not (eq_ℤ size total) then some size_mismatch else none

unfoldable pub verify_on_disk : Option ℤ → Downloader → Option DiskError
unfolding sum_downloaded
verify_on_disk stat d =
    if ltb_ℤ (pos 0) d.total_size && not (eq_ℤ (sum_downloaded (pos 0) d.progress) d.total_size)
    then some incomplete
    else check_size d.total_size stat

-- What flushProgress reports of a chunk: a transient status becomes a resumable one.
unfoldable pub flushed : ChunkProgress → ℕ × ℤ × Status
flushed p = (
  p.chunk_index,
  p.downloaded_size,
  if status_eq p.status Status.downloading || status_eq p.status Status.retrying
      then Status.paused
      else p.status,
)

unfoldable pub flush_progress : List ChunkProgress → List (ℕ × ℤ × Status)
unfolding flushed
flush_progress ps = map flushed ps

unfoldable pub all_completed : List ChunkProgress → Bool
all_completed [] = true
all_completed (p ∷ ps) = if status_eq p.status Status.completed then all_completed ps else false

abbrev pub sync_result : Bool → Option DiskError
sync_result true = none
sync_result false = some sync_failed

abbrev pub verified : Option DiskError → Bool → Option DiskError
verified (some e) synced = some e
verified none synced = sync_result synced

-- Start after `wg.Wait()`: whether the context was cancelled, whether the spawn loop stopped early,
-- what Stat says, and whether Sync succeeds. `none` is success.
unfoldable pub conclude : Bool → Bool → Option ℤ → Bool → Downloader → Option DiskError
unfolding verify_on_disk all_completed
conclude ctx_done stopped stat synced d =
    if ctx_done || stopped
    then some cancelled
    else if all_completed d.progress
    then verified (verify_on_disk stat d) synced
    else some chunks_failed
