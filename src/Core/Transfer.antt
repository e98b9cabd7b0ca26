-- ===== src/Core/Transfer.antt =====
-- The loop of downloadChunk in internal/core/downloader.go that reads a body into the file.
pub mod Bytes
pub mod Contents
pub mod Ends
use lunefetch.Base.{
  ℕ, zero, suc, min, ◌+◌, ◌-◌, ◌*◌, ◌%◌, ◌^◌, ◌==◌, if◌then◌else◌, List, [], ◌∷◌, Option, none,
  some, Bool, true, false, not, length, take,
}
use lunefetch.Base.Int64.{ℤ, pos, add64}

pub data ChunkError : Type 0 where
  request_failed range_missing range_mismatch range_ignored bad_status length_mismatch : ChunkError
  cancelled throttle_failed write_failed short_body read_failed boundary_failed too_long :
      ChunkError

-- The error that comes with the bytes of a Read: none, io.EOF, or another one.
pub data ReadEnd : Type 0 where
  more eof broken : ReadEnd

-- What the world does in a round of the loop: whether the context is done, the bytes that Read has
-- ready and its error, whether the limiters let them pass, and the number of bytes that WriteAt
-- leaves in the file if it fails.
pub record Round : Type 0 where
  pub ctx_done : Bool
  pub bytes : List ℕ
  pub ending : ReadEnd
  pub passes : Bool
  pub write_stops : Option ℕ

-- A file as the byte at each offset.
abbrev pub File : Type 0
File = ℕ → ℕ

-- `bs` written at an offset.
unfoldable pub write_at : ℕ → List ℕ → File → File
write_at offset [] f = f
write_at offset (b ∷ bs) f = write_at (suc offset) bs (λ i. if i == offset then b else f i)

-- The variables of the loop. `written` is the bit pattern of an int64.
pub record Transfer : Type 0 where
  pub written : ℕ
  pub remaining : ℕ
  pub chunk_downloaded : ℤ
  pub file : File

pub data Ended : Type 0 where
  -- The rounds are used up and the loop still runs.
  unfinished : Ended
  failed : ChunkError → Ended
  finished : Ended

abbrev pub read_buf_size : ℕ
read_buf_size = 32 * 1024

-- Read gives at most as many bytes as the buffer takes.
unfoldable pub read_some : ℕ → Round → List ℕ
read_some remaining r = take (min read_buf_size remaining) r.bytes

unfoldable pub advance : List ℕ → Transfer → Transfer
advance got t = record {
  written = (t.written + length got) % 2 ^ 64;
  remaining = t.remaining - length got;
  chunk_downloaded = add64 t.chunk_downloaded (pos (length got));
  file = write_at t.written got t.file;
}

abbrev pub write_result : List ℕ → Transfer → Option ℕ → Option ChunkError × Transfer
write_result got t none = (none, advance got t)
write_result got t (some k) =
    (some write_failed, record t { file = write_at t.written (take k got) t.file })

-- `if n > 0 { … }`
abbrev pub store : Round → List ℕ → Transfer → Option ChunkError × Transfer
store r got t =
    if length got == 0
    then (none, t)
    else if r.passes
    then write_result got t r.write_stops
    else (some throttle_failed, t)

-- What the error of Read makes of the round: `none` when the loop goes on.
abbrev pub round_end : ReadEnd → Option ChunkError × Transfer → Option Ended
round_end e (some x, t) = some (failed x)
round_end more (none, t) = none
round_end eof (none, t) = some (if t.remaining == 0 then finished else failed short_body)
round_end broken (none, t) = some (failed read_failed)

-- `for remaining > 0`
unfoldable pub transfer : List Round → Transfer → Ended × Transfer
transfer [] t = (if t.remaining == 0 then finished else unfinished, t)
transfer (r ∷ rs) t = elim (t.remaining == 0) [
  | true ↦ (finished, t)
  | false ↦ elim r.ctx_done [
    | true ↦ (failed cancelled, t)
    | false ↦
        let s = store r (read_some t.remaining r) t in
        elim (round_end r.ending s) [ some e ↦ (e, s.1) | none ↦ transfer rs s.1 ]
  ]
]
