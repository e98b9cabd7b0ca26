-- ===== src/Core/Worker.antt =====
-- The worker of a chunk: downloadChunk and downloadChunkWithRetry of internal/core/downloader.go.
-- The server, the clock and the context are what an `Attempt` says.
pub mod Extended
pub mod Confined
pub mod Retry
pub mod Fetched
use lunefetch.Base.{
  ℕ, zero, suc, ◌+◌, ◌-◌, ◌==◌, if◌then◌else◌, List, [], ◌∷◌, ◌++◌, Option, none, some, Bool, true,
  false, ◌&&◌, ◌||◌, not, length,
}
use lunefetch.Base.Int64.{ℤ, pos, pos_part, add64, sub64, leb_ℤ, ltb_ℤ}
use lunefetch.Storage.Record.{Status}
use lunefetch.Core.Chunks.{Chunk}
use lunefetch.Core.Progress.{ChunkProgress, Downloader, eq_ℤ}
use lunefetch.Core.ContentRange.{parse_content_range}
use lunefetch.Core.Transfer.{
  ChunkError, request_failed, range_missing, range_mismatch, range_ignored, bad_status,
  length_mismatch, boundary_failed, too_long, ReadEnd, more, eof, broken, Round, File, Transfer,
  Ended, unfinished, failed, finished, transfer,
}

-- The answer of the server; a length below 0 is unknown.
pub record Response : Type 0 where
  pub status_code : ℕ
  pub content_range : List ℕ
  pub content_length : ℤ

-- What the world does in one attempt: whether the context is done at its start, the response or a
-- failed request, the rounds of the loop, the Read of one byte more, and whether the context is done
-- after an error and during the wait for the next attempt.
pub record Attempt : Type 0 where
  pub ctx_done : Bool
  pub response : Option Response
  pub rounds : List Round
  pub extra_byte : Bool
  pub extra_end : ReadEnd
  pub ctx_after : Bool
  pub ctx_waiting : Bool

abbrev pub check_range : Downloader → Chunk → ℤ → Option (ℤ × ℤ × ℤ) → Option ChunkError
check_range d ch start none = some range_missing
check_range d ch start (some (got_start, got_end, got_total)) =
    if not (eq_ℤ got_start start) || not (eq_ℤ got_end ch.end) || not (eq_ℤ got_total d.total_size)
    then some range_mismatch
    else none

-- The checks on the status: 206 with its range, or 200 for a request of the whole file.
unfoldable pub check_status : Downloader → Chunk → ℤ → Response → Option ChunkError
unfolding sub64
check_status d ch start r =
    if r.status_code == 206
    then check_range d ch start (parse_content_range r.content_range)
    else if r.status_code == 200
    then (if not (eq_ℤ start (pos 0))
          || not (eq_ℤ ch.start (pos 0))
          || not (eq_ℤ ch.end (sub64 d.total_size (pos 1)))
          || not (length d.chunks == 1)
        then some range_ignored
        else none)
    else some bad_status

-- ch.End - start + 1
abbrev pub expected : Chunk → ℤ → ℤ
expected ch start = add64 (sub64 ch.end start) (pos 1)

abbrev pub check_length : Chunk → ℤ → Response → Option ChunkError → Option ChunkError
check_length ch start r (some e) = some e
check_length ch start r none =
    if leb_ℤ (pos 0) r.content_length && not (eq_ℤ r.content_length (expected ch start))
    then some length_mismatch
    else none

unfoldable pub check_response : Downloader → Chunk → ℤ → Response → Option ChunkError
unfolding check_status
check_response d ch start r = check_length ch start r (check_status d ch start r)

-- The start of the loop. A response that passed its checks starts at a byte that is not negative.
abbrev pub begin : Chunk → ℤ → ChunkProgress → File → Transfer
begin ch start p f = record {
  written = pos_part start;
  remaining = pos_part (expected ch start);
  chunk_downloaded = p.downloaded_size;
  file = f;
}

-- The Read of one byte after the range.
abbrev pub check_boundary : Bool → ReadEnd → Ended
check_boundary extra broken = failed boundary_failed
check_boundary true _ = failed too_long
check_boundary false _ = finished

abbrev pub after_loop : Attempt → Ended → Ended
after_loop a finished = check_boundary a.extra_byte a.extra_end
after_loop a (failed e) = failed e
after_loop a unfinished = unfinished

-- The entry after the loop, which sets it whenever it stores bytes.
abbrev pub noted : ChunkProgress → Transfer → Transfer → ChunkProgress
noted p t t' =
    if t'.remaining == t.remaining
    then p
    else record p { downloaded_size = t'.chunk_downloaded; status = Status.downloading }

abbrev pub looped :
    Attempt → ChunkProgress → Transfer → Ended × Transfer → Ended × ChunkProgress × File
looped a p t (e, t') = (after_loop a e, noted p t t', t'.file)

abbrev pub admitted :
    Attempt → Chunk → ℤ → ChunkProgress → File → Option ChunkError → Ended × ChunkProgress × File
admitted a ch start p f (some e) = (failed e, p, f)
admitted a ch start p f none =
    looped a p (begin ch start p f) (transfer a.rounds (begin ch start p f))

abbrev pub answered :
    Downloader
    → Attempt
    → Chunk
    → ℤ
    → ChunkProgress
    → File
    → Option Response
    → Ended × ChunkProgress × File
answered d a ch start p f none = (failed request_failed, p, f)
answered d a ch start p f (some r) = admitted a ch start p f (check_response d ch start r)

unfoldable pub download_chunk :
    Downloader → Chunk → Attempt → ChunkProgress → File → Ended × ChunkProgress × File
unfolding check_response
download_chunk d ch a p f =
    let start = add64 ch.start p.downloaded_size in
    if ltb_ℤ ch.end start then (finished, p, f) else answered d a ch start p f a.response

-- The worker: the entry of its chunk, the file, and what it emitted.
pub record Worker : Type 0 where
  pub progress : ChunkProgress
  pub file : File
  pub emitted : List (ℤ × Status)

abbrev pub emit : Status → Worker → Worker
emit s w = record w { emitted = w.emitted ++ (w.progress.downloaded_size, s) ∷ [] }

abbrev pub set_status : Status → Worker → Worker
set_status s w = record w { progress = record w.progress { status = s } }

-- The end of the loop over the attempts.
abbrev pub give_up : Bool → Worker → Worker
give_up ctx_done w = if ctx_done then w else emit Status.failed (set_status Status.failed w)

-- After a failed attempt: the worker, and whether the next attempt comes.
abbrev pub after_failure : ℤ → ℕ → Attempt → Worker → Bool × Worker
after_failure retries attempt a w =
    if a.ctx_after
    then (false, w)
    else if ltb_ℤ (pos attempt) retries
    then (not a.ctx_waiting, emit Status.retrying (set_status Status.retrying w))
    else (true, w)

abbrev pub after_attempt : ℤ → ℕ → Attempt → Worker → Ended × ChunkProgress × File → Bool × Worker
after_attempt retries attempt a w (finished, p, f) = (
  false,
  emit Status.completed (set_status Status.completed (record w { progress = p; file = f })),
)
after_attempt retries attempt a w (unfinished, p, f) = (false, record w { progress = p; file = f })
after_attempt retries attempt a w (failed e, p, f) =
    after_failure retries attempt a (record w { progress = p; file = f })

-- The attempts that are left; `ctx_end` is the context after the last one.
unfoldable pub try_attempts : ℕ → ℕ → Downloader → Chunk → (ℕ → Attempt) → Bool → Worker → Worker
unfolding download_chunk
try_attempts zero attempt d ch world ctx_end w = give_up ctx_end w
try_attempts (suc left) attempt d ch world ctx_end w = elim ((world attempt).ctx_done) [
  | true ↦ w
  | false ↦
      let s =
        after_attempt d.retries attempt (world attempt) w
          (download_chunk d ch (world attempt) w.progress w.file) in
      elim s.0 [ true ↦ try_attempts left (suc attempt) d ch world ctx_end s.1 | false ↦ s.1 ]
]

-- One attempt more than there are retries, and none for a negative number of them.
unfoldable pub download_chunk_with_retry :
    Downloader → Chunk → (ℕ → Attempt) → Bool → Worker → Worker
unfolding try_attempts
download_chunk_with_retry d ch world ctx_end w =
    try_attempts (if ltb_ℤ d.retries (pos 0) then 0 else suc (pos_part d.retries)) 0 d ch world
      ctx_end w
