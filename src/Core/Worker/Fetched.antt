-- ===== src/Core/Worker/Fetched.antt =====
-- A worker whose server sends the bytes of a file: what it counts is in its place.
use lunefetch.Base.{
  ℕ, zero, suc, ◌+◌, ◌-◌, ◌≤◌, ◌<◌, ◌==◌, ◌≡◌, refl, sym, ap, ◌∙◌, subst, if◌then◌else◌, List, [],
  ◌∷◌, ◌++◌, Bool, true, false, length, ltb, arith, Bool-cases, inl, inr,
}
use lunefetch.Base.Int64.{pos, pos_part, ltb_ℤ}
use lunefetch.Storage.Record.{Status}
use lunefetch.Core.Chunks.{Chunk}
use lunefetch.Core.Progress.{Downloader}
use lunefetch.Core.Transfer.{File, write_at}
use lunefetch.Core.Transfer.Bytes.{write_at-append}
use lunefetch.Core.Worker.{
  Attempt, download_chunk, Worker, give_up, download_chunk_with_retry, try_attempts,
}
use lunefetch.Core.Worker.Extended.{IsChunk, body, download_chunk-IsExtended}
use lunefetch.Core.Worker.Confined.{Confined, write_at-outside, give_up-Confined}
use lunefetch.Core.Worker.Retry.{after, after_attempt-IsAt, try_attempts-keeps}

-- `bs` are the bytes of `content` from an offset: writing them there changes nothing of it.
abbrev pub IsPart : File → ℕ → List ℕ → Type 0
IsPart content o bs = (i : ℕ) → write_at o bs content i ≡ content i

-- `m` bytes from `s` are those of `content`.
abbrev pub Matches : File → ℕ → ℕ → File → Type 0
Matches content s m f = (i : ℕ) → s ≤ i → i < s + m → f i ≡ content i

-- A byte that is written does not depend on the file before.
write_at-inside :
    (o : ℕ) (bs : List ℕ) (f g : File) (i : ℕ)
    → o ≤ i
    → i < o + length bs
    → write_at o bs f i ≡ write_at o bs g i
unfolding write_at
write_at-inside o [] f g i lo hi = absurd (omega (arith, lo, hi))
write_at-inside o (b ∷ bs) f g i lo hi = elim (Bool-cases (i == o)) [
  | inl here ↦
      write_at-outside (suc o) bs (λ j. if j == o then b else f j) i (inl (ground arith))
      ∙ rw here (
          sym (
            write_at-outside (suc o) bs (λ j. if j == o then b else g j) i (inl (ground arith))
            ∙ rw here refl))
  | inr there ↦
      write_at-inside (suc o) bs (λ j. if j == o then b else f j) (λ j. if j == o then b else g j) i
        (ground arith) (ground arith)
]

-- The first bytes of a part, written with more behind them.
part-first :
    (content : File) (o : ℕ) (xs ys zs : List ℕ) (f : File) (i : ℕ)
    → IsPart content o (xs ++ zs)
    → o ≤ i
    → i < o + length xs
    → write_at o (xs ++ ys) f i ≡ content i
part-first content o xs ys zs f i part lo hi =
    let before : (bs : List ℕ) (g : File) → write_at o (xs ++ bs) g i ≡ write_at o xs g i = λ bs g.
      ap (λ h. h i) (sym (write_at-append o xs bs g))
      ∙ write_at-outside (o + length xs) bs (write_at o xs g) i (inl (omega (arith, hi))) in
    before ys f ∙ write_at-inside o xs f content i lo hi ∙ sym (before zs content) ∙ part i

module _ (content : File) (s n : ℕ) where
  stored-Matches :
      (k : ℕ) (f : File) (stored partial rest : List ℕ)
      → Matches content s k f
      → IsPart content (s + k) (stored ++ (partial ++ rest))
      → Matches content s (k + length stored) (write_at (s + k) (stored ++ partial) f)
  stored-Matches k f stored partial rest m part i lo hi = elim (Bool-cases (ltb i (s + k))) [
    | inl old ↦
        write_at-outside (s + k) (stored ++ partial) f i (inl (ground arith))
        ∙ m i lo (ground arith)
    | inr new ↦
        part-first content (s + k) stored partial (partial ++ rest) f i part (ground arith)
          (omega (arith, hi))
  ]

  -- In the attempts that come, a response that passes its checks has the bytes of `content` from the
  -- offset that is asked for.
  module _ (d : Downloader) (ch : Chunk) (world : ℕ → Attempt) where
    unfoldable pub IsServed : ℕ → ℕ → Worker → Type 0
    IsServed zero attempt w = Unit
    IsServed (suc left) attempt w =
        let k = pos_part w.progress.downloaded_size in
        (world attempt).ctx_done ≡ false
        → IsPart content (s + k) (body d ch (s + k) (n - k) (world attempt))
          × ((after d ch world attempt w).0 ≡ true
              → IsServed left (suc attempt) (after d ch world attempt w).1)

-- The counted bytes of a worker are those of `content`.
abbrev pub IsFetched : File → ℕ → ℕ → ℕ → File → Worker → Type 0
IsFetched content s n k f w = (x : Confined s n k f w) × Matches content s x.done w.file

module _ (content : File) (s n k : ℕ) (f : File) (d : Downloader) (ch : Chunk) (is : IsChunk s n ch)
    (world : ℕ → Attempt) where
  after-IsFetched :
      (attempt : ℕ) (w : Worker) (x : Confined s n k f w)
      → Matches content s x.done w.file
      → IsPart content (s + x.done) (body d ch (s + x.done) (n - x.done) (world attempt))
      → IsFetched content s n k f (after d ch world attempt w).1
  after-IsFetched attempt w x m part =
      let o = download_chunk d ch (world attempt) w.progress w.file in
      let y =
        download_chunk-IsExtended s n x.done d ch (world attempt) w.progress w.file is x.counted
          x.fits in
      let (z, same, count) =
        after_attempt-IsAt s n k f (body d ch (s + x.done) (n - x.done) (world attempt)) d.retries
          attempt (world attempt) w o x y in
      let grown : x.done + length y.0.stored ≡ z.done =
        ap pos_part (sym y.0.counted ∙ sym count ∙ z.counted) in
      (
        z,
        subst (λ j. Matches content s j (after d ch world attempt w).1.file) grown
            (subst (Matches content s (x.done + length y.0.stored)) (sym (same ∙ y.0.in_file)) (
              stored-Matches content s n x.done w.file y.0.stored y.0.partial y.0.rest m
                (subst (IsPart content (s + x.done)) (sym y.0.first_bytes) part))),
      )

  abbrev State : ℕ → ℕ → Worker → Type 0
  State left attempt w =
      IsFetched content s n k f w × IsServed content s n d ch world left attempt w

  served-State :
      (left attempt : ℕ) (w : Worker)
      → State (suc left) attempt w
      → (world attempt).ctx_done ≡ false
      → ((after d ch world attempt w).0 ≡ true
          → State left (suc attempt) (after d ch world attempt w).1)
        × ((after d ch world attempt w).0 ≡ false
            → IsFetched content s n k f (after d ch world attempt w).1)
  unfolding IsServed
  served-State left attempt w ((x, m), served) begun =
      let (part, again) = served begun in
      let at_done : pos_part w.progress.downloaded_size ≡ x.done = ap pos_part x.counted in
      let y = after-IsFetched attempt w x m (
        subst (λ j. IsPart content (s + j) (body d ch (s + j) (n - j) (world attempt))) at_done
          part) in
      (λ more. (y, again more), λ last. y)

  give_up-IsFetched :
      (b : Bool) (w : Worker)
      → IsFetched content s n k f w
      → IsFetched content s n k f (give_up b w)
  give_up-IsFetched true w (x, m) = (x, m)
  give_up-IsFetched false w (x, m) =
      let z : Confined s n k f (give_up false w) = give_up-Confined s n k f false w x in
      (z, subst (λ j. Matches content s j w.file) (ap pos_part (sym x.counted ∙ z.counted)) m)

  try_attempts-IsFetched :
      (ctx_end : Bool) (left attempt : ℕ) (w : Worker)
      → State left attempt w
      → IsFetched content s n k f (try_attempts left attempt d ch world ctx_end w)
  try_attempts-IsFetched ctx_end =
      try_attempts-keeps d ch world ctx_end State (IsFetched content s n k f)
        (λ _ w x. give_up-IsFetched ctx_end w x.0) (λ _ _ w x _. x.0) served-State

-- One attempt more than there are retries, as downloadChunkWithRetry counts them.
abbrev pub attempts_of : Downloader → ℕ
attempts_of d = if ltb_ℤ d.retries (pos 0) then 0 else suc (pos_part d.retries)

-- A worker at a chunk of `n` bytes from `s`, of which `k` are counted and in the file, and which begins
-- as completed only if that is all. Where each response that passes the checks of downloadChunk brings
-- bytes of `content` from the offset that was asked for, whatever else happens in the attempts: all the
-- bytes that the worker counts are those of `content`, and a completed chunk is whole.
pub download_chunk_with_retry-Fetched :
    (content : File) (s n k : ℕ) (d : Downloader) (ch : Chunk) (world : ℕ → Attempt)
    (ctx_end : Bool) (w : Worker)
    → IsChunk s n ch
    → w.progress.downloaded_size ≡ pos k
    → k ≤ n
    → (w.progress.status ≡ Status.completed → k ≡ n)
    → Matches content s k w.file
    → IsServed content s n d ch world (attempts_of d) 0 w
    → let r = download_chunk_with_retry d ch world ctx_end w in
      ((m : ℕ) × (r.progress.downloaded_size ≡ pos m) × Matches content s m r.file)
      × (r.progress.status ≡ Status.completed → Matches content s n r.file)
unfolding download_chunk_with_retry
download_chunk_with_retry-Fetched content s n k d ch world ctx_end w is count le whole old served =
    let (x, m) =
      try_attempts-IsFetched content s n k w.file d ch is world ctx_end (attempts_of d) 0 w (
        (
          record {
            done = k;
            counted = count;
            kept = omega arith;
            fits = le;
            outside = λ i h. refl;
            whole = whole;
          },
          old,
        ),
        served,
      ) in
    (
      (x.done, x.counted, m),
      λ h.
          subst
            (λ j. Matches content s j (try_attempts (attempts_of d) 0 d ch world ctx_end w).file)
            (x.whole h) m,
    )
