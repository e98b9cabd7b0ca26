-- ===== src/Core/Chunks.antt =====
-- The split of a file into byte ranges: `Chunk` and `CalculateChunks` of
-- internal/core/downloader.go.
pub mod Tiling
pub mod Fresh
use lunefetch.Base.{
  ℕ, zero, suc, ◌+◌, ◌-◌, ◌*◌, ◌/◌, ◌%◌, ◌^◌, ◌≤◌, ◌<◌, ◌≡◌, List, [], ◌∷◌, ◌||◌, ltb, ◌==◌,
  if◌then◌else◌,
}
use lunefetch.Base.Int64.{ℤ, pos, sub64, of_bits, leb_ℤ, pos_part}

pub record Chunk : Type 0 where
  pub index : ℕ
  pub start : ℤ
  pub end : ℤ
  pub downloaded : ℤ

-- The sizes and sums of the counter loop are bit patterns of int64.
size_at : ℕ → ℕ → ℕ → ℕ
size_at i chunk_size remainder = if ltb i remainder then (chunk_size + 1) % 2 ^ 64 else chunk_size

end_at : ℕ → ℕ → ℕ → ℕ → ℕ → ℕ
end_at i num_chunks file_size start size =
    if i == num_chunks - 1 then file_size - 1 else (start + size + (2 ^ 64 - 1)) % 2 ^ 64

-- The counter loop of `CalculateChunks`, over the rounds that are left.
split_from : ℕ → ℕ → ℕ → ℕ → ℕ → ℕ → ℕ → List Chunk
split_from zero i num_chunks file_size chunk_size remainder start = []
split_from (suc rounds) i num_chunks file_size chunk_size remainder start =
    let end = end_at i num_chunks file_size start (size_at i chunk_size remainder) in
    record { index = i; start = of_bits start; end = of_bits end; downloaded = pos 0 }
    ∷ split_from rounds (i + 1) num_chunks file_size chunk_size remainder ((end + 1) % 2 ^ 64)

-- At most a chunk for each byte, and at least one chunk.
unfoldable pub capped_count : ℕ → ℕ → ℕ
capped_count file_size wanted =
    let capped = if ltb file_size wanted then file_size else wanted in
    if ltb capped 1 then 1 else capped

-- The split for a positive size into more than one chunk.
unfoldable pub split_chunks : ℕ → ℕ → List Chunk
unfolding split_from size_at end_at
split_chunks file_size num_chunks =
    split_from num_chunks 0 num_chunks file_size (file_size / num_chunks) (file_size % num_chunks) 0

unfoldable pub calculate_chunks : ℤ → ℤ → List Chunk
unfolding sub64
calculate_chunks file_size num_chunks =
    if leb_ℤ num_chunks (pos 1) || leb_ℤ file_size (pos 0)
    then record { index = 0; start = pos 0; end = sub64 file_size (pos 1); downloaded = pos 0 } ∷ []
    else split_chunks (pos_part file_size) (capped_count (pos_part file_size) (pos_part num_chunks))
