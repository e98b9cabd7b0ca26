-- ===== src/Examples/CoreRuns.antt =====
-- internal/core on concrete inputs.
use lunefetch.Base.{ℕ, refl, List, [], ◌∷◌, some, arith}
use lunefetch.Base.Int64.{pos}
use lunefetch.Storage.Record.{Status}
use lunefetch.Core.Chunks.{Chunk, calculate_chunks}
use lunefetch.Core.Chunks.Tiling.{Tiles, calculate_chunks-Tiles}
use lunefetch.Core.Progress.{ChunkProgress, Downloader, reconcile_disk_progress}
use lunefetch.Core.Progress.Disk.{AllChecked, reconcile_disk_progress-AllChecked}

calculate_chunks-Tiles_example : Tiles 0 (calculate_chunks (pos 10) (pos 3)) 10
calculate_chunks-Tiles_example = calculate_chunks-Tiles 10 (pos 3) (omega arith) (omega arith)

abbrev two_chunks : List Chunk
two_chunks =
    record { index = 0; start = pos 0; end = pos 4; downloaded = pos 5 }
    ∷ record { index = 1; start = pos 5; end = pos 9; downloaded = pos 5 }
    ∷ []

abbrev entry : ℕ → Status → ChunkProgress
entry i s = record { chunk_index = i; downloaded_size = pos 5; total_size = pos 5; status = s }

abbrev whole : Downloader
whole = record {
  total_size = pos 10;
  chunks = two_chunks;
  num_chunks = pos 2;
  retries = pos 3;
  progress = entry 0 Status.completed ∷ entry 1 Status.completed ∷ [];
  downloaded_size = pos 10;
}

-- The file was cut to 7 bytes.
reconcile_disk_progress-AllChecked_example :
    AllChecked 7 two_chunks whole.progress (reconcile_disk_progress (some (pos 7)) whole).1.progress
reconcile_disk_progress-AllChecked_example =
    reconcile_disk_progress-AllChecked 7 whole (omega arith)
      ((0, refl, omega arith), ((5, refl, omega arith), tt))
