-- ===== src/Examples/WorkerRuns.antt =====
-- The worker of internal/core on concrete inputs.
use lunefetch.Base.{
  ℕ, ◌*◌, ◌^◌, ◌<◌, min, ◌≡◌, ◌≢◌, ◌==◌, if◌then◌else◌, refl, sym, subst, List, [], ◌∷◌, none, some,
  Bool, true, false, inl, inr, length, arith,
}
use lunefetch.Base.Int64.{pos, add64}
use lunefetch.Storage.Record.{Status}
use lunefetch.Core.Chunks.{Chunk}
use lunefetch.Core.Progress.{ChunkProgress, Downloader}
use lunefetch.Core.Transfer.{
  ReadEnd, more, eof, Round, File, Transfer, unfinished, finished, transfer, write_at, read_some,
  advance,
}
use lunefetch.Core.Transfer.Bytes.{offered}
use lunefetch.Core.Transfer.Contents.{IsGood, transfer-IsGood}
use lunefetch.Core.Transfer.Ends.{transfer-ends}
use lunefetch.Core.Worker.{
  Attempt, check_response, download_chunk, Worker, download_chunk_with_retry,
}
use lunefetch.Core.Worker.Extended.{IsChunk, IsExtended, body, download_chunk-IsExtended}
use lunefetch.Core.Worker.Confined.{Confined}
use lunefetch.Core.Worker.Retry.{after, download_chunk_with_retry-Confined}
use lunefetch.Core.Worker.Fetched.{IsPart, Matches, IsServed, download_chunk_with_retry-Fetched}
use lunefetch.Core.ContentRange.{parse_content_range}
use lunefetch.Core.ContentRange.Bounds.{AllRange, parse_content_range-AllRange}
use lunefetch.Core.Backoff.{second, max_retry_backoff, backoff_for, backoff_for_lem}
use lunefetch.Core.Throttle.{set_rate, wait, IsPaid, set_rate-IsPaid}
use lunefetch.Core.UnknownSize.{start_unknown_size, read_full, append_bytes, read_all}
use lunefetch.Core.UnknownSize.Whole.{body_of, IsWhole, start_unknown_size-IsWhole}

abbrev reads : List ℕ → ReadEnd → Round
reads bs e = record { ctx_done = false; bytes = bs; ending = e; passes = true; write_stops = none }

abbrev empty_file : File
empty_file i = 0

-- Three bytes are wanted from offset 2, and come in two reads.
abbrev start : Transfer
start = record { written = 2; remaining = 3; chunk_downloaded = pos 1; file = empty_file }

abbrev two_reads : List Round
two_reads = reads (7 ∷ 8 ∷ []) more ∷ reads (9 ∷ []) eof ∷ reads [] eof ∷ reads [] eof ∷ []

transfer-IsGood_example : IsGood (offered two_reads 3) 1 start (transfer two_reads start)
transfer-IsGood_example = transfer-IsGood two_reads 1 start (refl, omega arith, omega arith)

transfer-ends_example : (transfer two_reads start).0 ≢ unfinished
transfer-ends_example =
    transfer-ends two_reads start
      (inl (omega arith), (inl (omega arith), (inr (λ h. cc), (inr (λ h. cc), tt)))) (omega arith)

-- bytes 2-4/5
abbrev header : List ℕ
header = 98 ∷ 121 ∷ 116 ∷ 101 ∷ 115 ∷ 32 ∷ 50 ∷ 45 ∷ 52 ∷ 47 ∷ 53 ∷ []

parse_content_range-AllRange_example : AllRange (parse_content_range header)
parse_content_range-AllRange_example = parse_content_range-AllRange header

-- The second chunk of a file of 5 bytes, with one byte done.
abbrev second_chunk : Chunk
second_chunk = record { index = 1; start = pos 1; end = pos 4; downloaded = pos 1 }

abbrev entry : ChunkProgress
entry = record {
  chunk_index = 1;
  downloaded_size = pos 1;
  total_size = pos 4;
  status = Status.pending;
}

abbrev downloader : Downloader
downloader = record {
  total_size = pos 5;
  chunks = record { index = 0; start = pos 0; end = pos 0; downloaded = pos 0 } ∷ second_chunk ∷ [];
  num_chunks = pos 2;
  retries = pos 3;
  progress = entry ∷ [];
  downloaded_size = pos 1;
}

abbrev partial_content : Attempt
partial_content = record {
  ctx_done = false;
  response = some (record { status_code = 206; content_range = header; content_length = pos 3 });
  rounds = two_reads;
  extra_byte = false;
  extra_end = eof;
  ctx_after = false;
  ctx_waiting = false;
}

second_chunk-IsChunk : IsChunk 1 4 second_chunk
second_chunk-IsChunk = record {
  from = refl;
  to = refl;
  some_bytes = omega arith;
  small = omega arith;
}

download_chunk-IsExtended_example :
    IsExtended
      (body downloader second_chunk 2 3 partial_content)
      1
      4
      1
      empty_file
      entry
      (download_chunk downloader second_chunk partial_content entry empty_file)
download_chunk-IsExtended_example =
    download_chunk-IsExtended 1 4 1 downloader second_chunk partial_content entry empty_file
      second_chunk-IsChunk refl (omega arith)

abbrev worker : Worker
worker = record { progress = entry; file = empty_file; emitted = [] }

download_chunk_with_retry-Confined_example :
    Confined 1 4 1 empty_file
      (download_chunk_with_retry downloader second_chunk (λ i. partial_content) false worker)
download_chunk_with_retry-Confined_example =
    download_chunk_with_retry-Confined 1 4 1 downloader second_chunk (λ i. partial_content) false
      worker second_chunk-IsChunk refl (omega arith) (λ h. cc)

-- The file at the server: 0, 0, 7, 8, 9.
abbrev remote : File
remote i = if i == 2 then 7 else if i == 3 then 8 else if i == 4 then 9 else 0

first_body : body downloader second_chunk 2 3 partial_content ≡ 7 ∷ 8 ∷ 9 ∷ []
unfolding check_response parse_content_range add64 offered read_some
first_body = refl

first_done : (after downloader second_chunk (λ i. partial_content) 0 worker).0 ≡ false
unfolding download_chunk add64 parse_content_range transfer read_some advance
first_done = refl

not_both : (b : Bool) → b ≡ true → b ≡ false → ⊥
not_both b h k = cc

-- The first attempt gets all the bytes.
remote-IsServed : IsServed remote 1 4 downloader second_chunk (λ i. partial_content) 4 0 worker
unfolding IsServed write_at
remote-IsServed goes = (
  subst (IsPart remote 2) (sym first_body) (λ i. ground arith),
  λ h. absurd (not_both _ h first_done),
)

download_chunk_with_retry-Fetched_example :
    let r = download_chunk_with_retry downloader second_chunk (λ i. partial_content) false worker in
    ((m : ℕ) × (r.progress.downloaded_size ≡ pos m) × Matches remote 1 m r.file)
    × (r.progress.status ≡ Status.completed → Matches remote 1 4 r.file)
download_chunk_with_retry-Fetched_example =
    download_chunk_with_retry-Fetched remote 1 4 1 downloader second_chunk (λ i. partial_content)
      false worker second_chunk-IsChunk refl (omega arith) (λ h. cc)
      (λ i lo hi. ground (arith, lo, hi)) remote-IsServed

backoff_for_example : backoff_for (pos second) 3 ≡ pos (min max_retry_backoff (second * 2 ^ 3))
backoff_for_example = backoff_for_lem second 3 (omega arith) (omega arith)

set_rate-IsPaid_example :
    IsPaid
      (32 * 1024)
      100
      (wait (set_rate (pos 40) (record { limit = none; burst = pos 1 })) 100 (λ i. true))
set_rate-IsPaid_example =
    set_rate-IsPaid (pos 40) (record { limit = none; burst = pos 1 }) 100 (λ i. true) (omega arith)

sequential_reads : (start_unknown_size (some 200) true two_reads entry empty_file).0 ≡ finished
unfolding start_unknown_size read_all read_full append_bytes
sequential_reads = refl

body_of-short : length (body_of two_reads) < 2 ^ 63
unfolding body_of read_full
body_of-short = omega arith

start_unknown_size-IsWhole_example :
    IsWhole (body_of two_reads) (start_unknown_size (some 200) true two_reads entry empty_file).1
start_unknown_size-IsWhole_example =
    start_unknown_size-IsWhole (some 200) true two_reads entry empty_file body_of-short
      sequential_reads
