-- ===== src/Core/UnknownSize.antt =====
-- startUnknownSize of internal/core/downloader.go: one request for a file whose size the server does
-- not tell. The world is a response, and the rounds of the loop (whose context is not looked at).
pub mod Whole
use lunefetch.Base.{
  ℕ, zero, suc, ◌+◌, ◌%◌, ◌^◌, ◌≤◌, ◌<◌, ◌==◌, ◌≡◌, ◌≢◌, refl, sym, ap, ◌∙◌, subst, if◌then◌else◌,
  List, [], ◌∷◌, ◌++◌, Option, none, some, Bool, true, false, ◌||◌, not, length, length-append,
  take, ltb, leb, arith, Bool-cases, Option-cases, inl, inr, ◌⊎◌,
}
use lunefetch.Base.Int64.{ℤ, of_bits}
use lunefetch.Storage.Record.{Status}
use lunefetch.Core.Progress.{ChunkProgress}
use lunefetch.Core.Transfer.{
  ChunkError, request_failed, bad_status, write_failed, throttle_failed, short_body, read_failed,
  ReadEnd, more, eof, broken, Round, File, write_at, Ended, unfinished, failed, finished,
  read_buf_size,
}
use lunefetch.Core.Transfer.Bytes.{write_at-append}

-- The variables: the bytes so far (the bit pattern of an int64), the entry of the only chunk, the
-- file.
pub record Sequential : Type 0 where
  pub total : ℕ
  pub entry : ChunkProgress
  pub file : File

unfoldable pub read_full : Round → List ℕ
read_full r = take read_buf_size r.bytes

abbrev pub note : ℕ → ChunkProgress → ChunkProgress
note total p = record p {
  downloaded_size = of_bits total;
  total_size = of_bits total;
  status = Status.downloading;
}

unfoldable pub append_bytes : List ℕ → Sequential → Sequential
append_bytes got t =
    let total : ℕ = (t.total + length got) % 2 ^ 64 in
    record { total = total; entry = note total t.entry; file = write_at t.total got t.file }

abbrev pub written_or : List ℕ → Sequential → Option ℕ → Option ChunkError × Sequential
written_or got t none = (none, append_bytes got t)
written_or got t (some k) =
    (some write_failed, record t { file = write_at t.total (take k got) t.file })

abbrev pub keep : Round → List ℕ → Sequential → Option ChunkError × Sequential
keep r got t =
    if length got == 0
    then (none, t)
    else if r.passes
    then written_or got t r.write_stops
    else (some throttle_failed, t)

abbrev pub body_end : ReadEnd → Option ChunkError × Sequential → Option Ended
body_end e (some x, t) = some (failed x)
body_end more (none, t) = none
body_end eof (none, t) = some finished
body_end broken (none, t) = some (failed read_failed)

unfoldable pub read_all : List Round → Sequential → Ended × Sequential
read_all [] t = (unfinished, t)
read_all (r ∷ rs) t =
    let s = keep r (read_full r) t in
    elim (body_end r.ending s) [ some e ↦ (e, s.1) | none ↦ read_all rs s.1 ]

-- An empty body is an error; otherwise the size is known and the chunk completed.
abbrev pub closed : Ended × Sequential → Ended × Sequential
closed (finished, t) =
    if t.total == 0
    then (failed short_body, t)
    else (finished, record t { entry = record t.entry { status = Status.completed } })
closed (failed e, t) = (failed e, t)
closed (unfinished, t) = (unfinished, t)

-- `none` for a failed request; then the status, and whether Truncate(0) succeeds.
unfoldable pub start_unknown_size :
    Option ℕ → Bool → List Round → ChunkProgress → File → Ended × Sequential
unfolding read_all
start_unknown_size none truncates rs p f =
    (failed request_failed, record { total = 0; entry = p; file = f })
start_unknown_size (some status_code) truncates rs p f =
    if ltb status_code 200 || leb 300 status_code
    then (failed bad_status, record { total = 0; entry = p; file = f })
    else if truncates
    then closed (read_all rs (record { total = 0; entry = p; file = λ i. 0 }))
    else (failed write_failed, record { total = 0; entry = p; file = f })
