-- ===== src/Core/Worker/Retry.antt =====
-- All the attempts of a worker at its chunk.
use lunefetch.Base.{
  ℕ, zero, suc, ◌≤◌, ◌≡◌, refl, if◌then◌else◌, List, Bool, true, false, arith, Bool-cases, inl, inr,
}
use lunefetch.Base.Int64.{ℤ, pos, pos_part, ltb_ℤ}
use lunefetch.Storage.Record.{Status}
use lunefetch.Core.Chunks.{Chunk}
use lunefetch.Core.Progress.{ChunkProgress, Downloader}
use lunefetch.Core.Transfer.{File, Ended, unfinished, failed, finished}
use lunefetch.Core.Worker.{
  Attempt, download_chunk, Worker, give_up, emit, set_status, after_failure, after_attempt,
  try_attempts, download_chunk_with_retry,
}
use lunefetch.Core.Worker.Extended.{IsChunk, IsExtended, download_chunk-IsExtended}
use lunefetch.Core.Worker.Confined.{Confined, restate, give_up-Confined, Extended-Confined}

-- The attempts one after the other: what the first one needs, and each step hands on.
abbrev pub after : Downloader → Chunk → (ℕ → Attempt) → ℕ → Worker → Bool × Worker
after d ch world attempt w =
    after_attempt d.retries attempt (world attempt) w
      (download_chunk d ch (world attempt) w.progress w.file)

module _ (d : Downloader) (ch : Chunk) (world : ℕ → Attempt) (ctx_end : Bool) where
  pub try_attempts-keeps :
      (P : ℕ → ℕ → Worker → Type 0) (Q : Worker → Type 0)
      → ((attempt : ℕ) (w : Worker) → P 0 attempt w → Q (give_up ctx_end w))
      → ((left attempt : ℕ) (w : Worker)
          → P (suc left) attempt w
          → (world attempt).ctx_done ≡ true
          → Q w)
      → ((left attempt : ℕ) (w : Worker)
          → P (suc left) attempt w
          → (world attempt).ctx_done ≡ false
          → ((after d ch world attempt w).0 ≡ true
              → P left (suc attempt) (after d ch world attempt w).1)
            × ((after d ch world attempt w).0 ≡ false → Q (after d ch world attempt w).1))
      → (left attempt : ℕ) (w : Worker) → P left attempt w
      → Q (try_attempts left attempt d ch world ctx_end w)
  unfolding try_attempts
  try_attempts-keeps P Q ends stops goes zero attempt w x = ends attempt w x
  try_attempts-keeps P Q ends stops goes (suc left) attempt w x =
      elim (Bool-cases (world attempt).ctx_done) [
        | inl stop ↦ rw (stop, try_attempts) (stops left attempt w x stop)
        | inr begun ↦
            let (again, over) = goes left attempt w x begun in
            elim (Bool-cases (after d ch world attempt w).0) [
              | inl more ↦
                  rw (begun, more, try_attempts)
                    (try_attempts-keeps P Q ends stops goes left (suc attempt)
                      (after d ch world attempt w).1 (again more))
              | inr last ↦ rw (begun, last, try_attempts) (over last)
            ]
      ]

module _ (s n k : ℕ) (f : File) where
  -- A worker with the file `g` and the count `c`.
  abbrev pub IsAt : File → ℤ → Worker → Type 0
  IsAt g c w = Confined s n k f w × (w.file ≡ g) × (w.progress.downloaded_size ≡ c)

  after_failure-IsAt :
      (retries : ℤ) (attempt : ℕ) (a : Attempt) (w : Worker) (x : Confined s n k f w)
      → IsAt w.file w.progress.downloaded_size (after_failure retries attempt a w).1
  after_failure-IsAt retries attempt a w x = elim (Bool-cases a.ctx_after) [
    | inl stop ↦ simp stop (x, refl, refl)
    | inr goes ↦ elim (Bool-cases (ltb_ℤ (pos attempt) retries)) [
      | inl again ↦
          simp (goes, again)
            (
              restate s n k f w (emit Status.retrying (set_status Status.retrying w)) refl refl x
                  (λ h. cc),
              refl,
              refl,
            )
      | inr last ↦ simp (goes, last) (x, refl, refl)
    ]
  ]

  -- What an attempt leaves is where its stored bytes end.
  pub after_attempt-IsAt :
      (bytes : List ℕ) (retries : ℤ) (attempt : ℕ) (a : Attempt) (w : Worker)
      (o : Ended × ChunkProgress × File) (x : Confined s n k f w)
      → IsExtended bytes s n x.done w.file w.progress o
      → IsAt o.2 o.1.downloaded_size (after_attempt retries attempt a w o).1
  after_attempt-IsAt bytes retries attempt a w (finished, p', f') x (y, whole) =
      let z : Confined s n k f (record w { progress = p'; file = f' }) =
        Extended-Confined bytes s n k f w x p' f' y in
      (
        restate s n k f (record w { progress = p'; file = f' })
            (emit Status.completed
              (set_status Status.completed (record w { progress = p'; file = f' })))
            refl refl z (λ _. completed z),
        refl,
        refl,
      )
    where
      completed : (z : Confined s n k f (record w { progress = p'; file = f' })) → z.done ≡ n
      completed z = ground (arith, z.counted, y.counted, whole refl)
  after_attempt-IsAt bytes retries attempt a w (unfinished, p', f') x (y, _) =
      (Extended-Confined bytes s n k f w x p' f' y, refl, refl)
  after_attempt-IsAt bytes retries attempt a w (failed e, p', f') x (y, _) =
      after_failure-IsAt retries attempt a (record w { progress = p'; file = f' })
        (Extended-Confined bytes s n k f w x p' f' y)

  module _ (d : Downloader) (ch : Chunk) (is : IsChunk s n ch) (world : ℕ → Attempt) where
    after-Confined :
        (attempt : ℕ) (w : Worker)
        → Confined s n k f w
        → Confined s n k f (after d ch world attempt w).1
    after-Confined attempt w x =
        (after_attempt-IsAt _ d.retries attempt (world attempt) w
          (download_chunk d ch (world attempt) w.progress w.file) x
          (download_chunk-IsExtended s n x.done d ch (world attempt) w.progress w.file is x.counted
            x.fits)).0

    try_attempts-Confined :
        (ctx_end : Bool) (left attempt : ℕ) (w : Worker)
        → Confined s n k f w
        → Confined s n k f (try_attempts left attempt d ch world ctx_end w)
    try_attempts-Confined ctx_end =
        try_attempts-keeps d ch world ctx_end (λ _ _. Confined s n k f) (Confined s n k f)
          (λ _ w x. give_up-Confined s n k f ctx_end w x) (λ _ _ w x _. x)
          (λ _ attempt w x _. (λ _. after-Confined attempt w x, λ _. after-Confined attempt w x))

-- Whatever happens in the attempts of a worker at a chunk of `n` bytes from `s`, which begins with
-- `k` bytes and not as completed unless that is all: the count never falls and stays in the chunk, no
-- byte outside of the rest of the chunk changes, and the entry is completed only if all `n` bytes are
-- counted.
pub download_chunk_with_retry-Confined :
    (s n k : ℕ) (d : Downloader) (ch : Chunk) (world : ℕ → Attempt) (ctx_end : Bool) (w : Worker)
    → IsChunk s n ch
    → w.progress.downloaded_size ≡ pos k
    → k ≤ n
    → (w.progress.status ≡ Status.completed → k ≡ n)
    → Confined s n k w.file (download_chunk_with_retry d ch world ctx_end w)
unfolding download_chunk_with_retry
download_chunk_with_retry-Confined s n k d ch world ctx_end w is count le whole =
    try_attempts-Confined s n k w.file d ch is world ctx_end
      (if ltb_ℤ d.retries (pos 0) then 0 else suc (pos_part d.retries)) 0 w
      (record {
        done = k;
        counted = count;
        kept = omega arith;
        fits = le;
        outside = λ i h. refl;
        whole = whole;
      })
