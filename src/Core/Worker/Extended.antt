-- ===== src/Core/Worker/Extended.antt =====
-- One attempt at a chunk: where it writes, and what it counts.
use lunefetch.Base.{
  ℕ, ◌+◌, ◌-◌, ◌^◌, ◌≤◌, ◌<◌, ◌==◌, ◌≡◌, refl, ap, ◌∙◌, List, [], ◌++◌, Option, none, some, length,
  arith, Bool-cases, inl, inr, ◌⊎◌,
}
use lunefetch.Base.Int64.{ℤ, pos, pos_part, add64, sub64, ltb_ℤ, add64-pos, sub64-pos}
use lunefetch.Storage.Record.{Status}
use lunefetch.Core.Chunks.{Chunk}
use lunefetch.Core.Progress.{ChunkProgress, Downloader}
use lunefetch.Core.Transfer.{
  ChunkError, File, write_at, Transfer, Ended, unfinished, failed, finished, transfer,
}
use lunefetch.Core.Transfer.Bytes.{Stored, IsRoomy, offered}
use lunefetch.Core.Transfer.Contents.{IsGood, transfer-IsGood}
use lunefetch.Core.Worker.{
  Response, Attempt, check_response, begin, after_loop, noted, looped, admitted, answered,
  download_chunk,
}

-- The chunk of `n` bytes from `s`, which ends in an int64 file.
pub record IsChunk (s n : ℕ) (ch : Chunk) : Type 0 where
  pub from : ch.start ≡ pos s
  pub to : ch.end ≡ pos (s + n - 1)
  pub some_bytes : 0 < n
  pub small : s + n < 2 ^ 63

-- The bytes that an attempt from the offset `start` may take: those that Read gives, if the response
-- passes its checks.
abbrev pub body_of : Option ChunkError → List ℕ → List ℕ
body_of (some e) bytes = []
body_of none bytes = bytes

abbrev pub body_for : Downloader → Chunk → ℤ → Option Response → List ℕ → List ℕ
body_for d ch start none bytes = []
body_for d ch start (some r) bytes = body_of (check_response d ch start r) bytes

abbrev pub body : Downloader → Chunk → ℕ → ℕ → Attempt → List ℕ
body d ch start wanted a = body_for d ch (pos start) a.response (offered a.rounds wanted)

-- From `k` bytes of the chunk: `stored`, the first bytes of the body, follow in the file and are
-- counted, and `partial`, which a failed write left, follow them uncounted.
pub record Extended (bytes : List ℕ) (s n k : ℕ) (f f' : File) (p p' : ChunkProgress) : Type 0 where
  pub stored : List ℕ
  pub partial : List ℕ
  pub rest : List ℕ
  pub first_bytes : stored ++ (partial ++ rest) ≡ bytes
  pub in_file : f' ≡ write_at (s + k) (stored ++ partial) f
  pub counted : p'.downloaded_size ≡ pos (k + length stored)
  pub fits : k + length stored + length partial ≤ n
  pub restated : ((p'.status ≡ p.status) × (length stored ≡ 0)) ⊎ (p'.status ≡ Status.downloading)

same-Extended :
    (bytes : List ℕ) (s n k : ℕ) (f : File) (p : ChunkProgress)
    → p.downloaded_size ≡ pos k
    → k ≤ n
    → Extended bytes s n k f f p p
unfolding write_at
same-Extended bytes s n k f p count le = record {
  stored = [];
  partial = [];
  rest = bytes;
  first_bytes = refl;
  in_file = refl;
  counted = count ∙ ap pos (omega arith);
  fits = omega arith;
  restated = inl (refl, refl);
}

-- What an attempt leaves.
abbrev pub IsExtended :
    List ℕ → ℕ → ℕ → ℕ → File → ChunkProgress → Ended × ChunkProgress × File → Type 0
IsExtended bytes s n k f p (e, p', f') =
    (x : Extended bytes s n k f f' p p') × (e ≡ finished → k + length x.stored ≡ n)

-- A chunk that is all there needs no request.
whole-IsExtended :
    (bytes : List ℕ) (s n k : ℕ) (f : File) (p : ChunkProgress)
    → p.downloaded_size ≡ pos k
    → k ≡ n
    → IsExtended bytes s n k f p (finished, p, f)
unfolding write_at
whole-IsExtended bytes s n k f p count all = (
  record {
    stored = [];
    partial = [];
    rest = bytes;
    first_bytes = refl;
    in_file = refl;
    counted = count ∙ ap pos (omega arith);
    fits = omega arith;
    restated = inl (refl, refl);
  },
  λ _. omega arith,
)

after_loop-finished : (a : Attempt) (e : Ended) → after_loop a e ≡ finished → e ≡ finished
after_loop-finished a unfinished h = h
after_loop-finished a (failed x) h = cc
after_loop-finished a finished h = refl

module _ (s n k : ℕ) (ch : Chunk) (is : IsChunk s n ch) (p : ChunkProgress) (f : File) (a : Attempt)
    (count : p.downloaded_size ≡ pos k) (wants : k < n) where
  abbrev t0 : Transfer
  t0 = begin ch (pos (s + k)) p f

  t0-remaining : t0.remaining ≡ n - k
  t0-remaining =
      ap (λ z. pos_part (add64 (sub64 z (pos (s + k))) (pos 1))) is.to
      ∙ ap (λ z. pos_part (add64 z (pos 1)))
          (sub64-pos (s + n - 1) (s + k) (omega (arith, wants)) (omega (arith, is.small)))
      ∙ ap pos_part (add64-pos (s + n - 1 - (s + k)) 1 (omega (arith, is.small)))
      ∙ omega (arith, wants)

  t0-IsRoomy : IsRoomy k t0
  t0-IsRoomy = (
    count,
    omega (arith, t0-remaining, wants, is.small),
    omega (arith, t0-remaining, wants, is.small),
  )

  noted-counted :
      (t' : Transfer) (x : Stored (offered a.rounds t0.remaining) k t0 t')
      → (noted p t0 t').downloaded_size ≡ pos (k + length x.stored)
  noted-counted t' x = elim (Bool-cases (t'.remaining == t0.remaining)) [
    | inl same ↦
        let nothing : length x.stored ≡ 0 = ground (arith, x.left) in
        rw same (count ∙ ap pos (omega arith))
    | inr moved ↦ rw moved x.counted
  ]

  noted-restated :
      (t' : Transfer) (x : Stored (offered a.rounds t0.remaining) k t0 t')
      → (((noted p t0 t').status ≡ p.status) × (length x.stored ≡ 0))
        ⊎ ((noted p t0 t').status ≡ Status.downloading)
  noted-restated t' x = elim (Bool-cases (t'.remaining == t0.remaining)) [
    | inl same ↦ inl (rw same refl, ground (arith, x.left))
    | inr moved ↦ inr (rw moved refl)
  ]

  looped-IsExtended :
      (o : Ended × Transfer)
      → IsGood (offered a.rounds t0.remaining) k t0 o
      → IsExtended (offered a.rounds (n - k)) s n k f p (looped a p t0 o)
  looped-IsExtended (e, t') (x, whole) = (
    record {
      stored = x.stored;
      partial = x.partial;
      rest = x.rest;
      first_bytes = x.first_bytes ∙ ap (offered a.rounds) t0-remaining;
      in_file = x.in_file;
      counted = noted-counted t' x;
      fits = omega (arith, x.left, x.fits, t0-remaining, wants);
      restated = noted-restated t' x;
    },
    λ h.
        let empty : t'.remaining ≡ 0 = whole (after_loop-finished a e h) in
        omega (arith, x.left, empty, t0-remaining, wants),
  )

  admitted-IsExtended :
      (o : Option ChunkError)
      → IsExtended
          (body_of o (offered a.rounds (n - k)))
          s
          n
          k
          f
          p
          (admitted a ch (pos (s + k)) p f o)
  admitted-IsExtended (some e) = (same-Extended [] s n k f p count (omega (arith, wants)), λ h. cc)
  admitted-IsExtended none =
      looped-IsExtended (transfer a.rounds t0) (transfer-IsGood a.rounds k t0 t0-IsRoomy)

  answered-IsExtended :
      (d : Downloader) (o : Option Response)
      → IsExtended
          (body_for d ch (pos (s + k)) o (offered a.rounds (n - k)))
          s
          n
          k
          f
          p
          (answered d a ch (pos (s + k)) p f o)
  answered-IsExtended d none = (same-Extended [] s n k f p count (omega (arith, wants)), λ h. cc)
  answered-IsExtended d (some r) = admitted-IsExtended (check_response d ch (pos (s + k)) r)

-- Whatever the server, the file and the context do in an attempt at a chunk of `n` bytes from `s`
-- with `k` bytes done: the counted bytes, the first ones of a response that passed its checks, follow
-- the `k` ones in the file, nothing is written but them and the rest of a failed write behind them, all
-- of it in the chunk; and downloadChunk returns without an error only if the whole chunk is counted.
pub download_chunk-IsExtended :
    (s n k : ℕ) (d : Downloader) (ch : Chunk) (a : Attempt) (p : ChunkProgress) (f : File)
    → IsChunk s n ch
    → p.downloaded_size ≡ pos k
    → k ≤ n
    → IsExtended (body d ch (s + k) (n - k) a) s n k f p (download_chunk d ch a p f)
unfolding download_chunk
download_chunk-IsExtended s n k d ch a p f is count le =
    let begins : add64 ch.start p.downloaded_size ≡ pos (s + k) =
      ap (λ z. add64 z p.downloaded_size) is.from
      ∙ ap (λ z. add64 (pos s) z) count
      ∙ add64-pos s k (omega (arith, is.small)) in
    rw begins (elim (Bool-cases (ltb_ℤ ch.end (pos (s + k)))) [
      | inl over ↦
          let all : k ≡ n = ground (arith, is.to, is.some_bytes) in
          rw over (whole-IsExtended _ s n k f p count all)
      | inr open_end ↦
          let wants : k < n = ground (arith, is.to, is.some_bytes) in
          rw open_end (answered-IsExtended s n k ch is p f a count wants d a.response)
    ])
