-- ===== src/Core/Progress/Disk.antt =====
-- Resume progress is backed by the file, and a download is published only if it is all there.
use lunefetch.Base.{
  ℕ, ◌+◌, ◌-◌, ◌<◌, ◌≤◌, ◌^◌, ◌≡◌, ◌≢◌, refl, if◌then◌else◌, List, [], ◌∷◌, Option, some, true, All,
  arith, Bool-cases, inl, inr, ◌⊎◌,
}
use lunefetch.Base.Int64.{ℤ, pos, sub64, leb_ℤ, ltb_ℤ, ◌≤ℤ◌, pos_part}
use lunefetch.Storage.Record.{Status, status_eq}
use lunefetch.Core.Chunks.{Chunk}
use lunefetch.Core.Progress.{
  ChunkProgress, Downloader, eq_ℤ, available_from, reconcile_chunk, reconcile_chunks,
  sum_downloaded, reconcile_disk_progress,
}

-- The progress of an entry and the file that backs it.
abbrev pub IsBacked : ℕ → Chunk → ChunkProgress → Type 0
IsBacked size c p =
    (p.downloaded_size ≤ℤ pos 0) ⊎ (pos_part p.downloaded_size + pos_part c.start ≤ size)

abbrev pub AllBacked : ℕ → List Chunk → List ChunkProgress → Type 0
AllBacked size (c ∷ cs) (p ∷ ps) = IsBacked size c p × AllBacked size cs ps
AllBacked size cs ps = Unit

available_from-eq :
    (n s : ℕ) → n < 2 ^ 63 → s < 2 ^ 63 → available_from (pos n) (pos s) ≡ pos (n - s)
unfolding available_from sub64
available_from-eq n s hn hs = ground arith

-- What reconcileDiskProgress makes of an entry: its bytes are in the file, they are no more than
-- before, and it counts as completed only if nothing of it was taken back.
abbrev pub Checked : ℕ → Chunk → ChunkProgress → ChunkProgress → Type 0
Checked size c p q =
    IsBacked size c q
    × (q.downloaded_size ≤ℤ p.downloaded_size)
    × (q.status ≡ Status.completed → q ≡ p)

abbrev pub AllChecked : ℕ → List Chunk → List ChunkProgress → List ChunkProgress → Type 0
AllChecked size (c ∷ cs) (p ∷ ps) (q ∷ qs) = Checked size c p q × AllChecked size cs ps qs
AllChecked size cs ps qs = ps ≡ qs

-- A chunk starts at a byte of an int64 file.
abbrev pub IsPlaced : Chunk → Type 0
IsPlaced c = (s : ℕ) × (c.start ≡ pos s) × (s < 2 ^ 63)

lowered : Status → Status
lowered s = if status_eq s Status.completed then Status.pending else s

lowered-open : (s : Status) → lowered s ≢ Status.completed
unfolding lowered
lowered-open Status.completed h = cc
lowered-open Status.pending h = cc
lowered-open Status.downloading h = cc
lowered-open Status.queued h = cc
lowered-open Status.scheduled h = cc
lowered-open Status.paused h = cc
lowered-open Status.failed h = cc
lowered-open Status.cancelled h = cc
lowered-open Status.retrying h = cc

reconcile_chunk-Checked :
    (n : ℕ) (c : Chunk) (p : ChunkProgress)
    → n < 2 ^ 63
    → IsPlaced c
    → Checked n c p (reconcile_chunk (pos n) c p)
unfolding reconcile_chunk lowered
reconcile_chunk-Checked n c p hn (s, e, hs) =
    let room : available_from (pos n) c.start ≡ pos (n - s) = rw e (available_from-eq n s hn hs) in
    elim (Bool-cases (leb_ℤ p.downloaded_size (pos 0))) [
      | inl none_yet ↦ rw none_yet (inl (ground arith), ground arith, λ _. refl)
      | inr some_bytes ↦
          elim (Bool-cases (ltb_ℤ (available_from (pos n) c.start) p.downloaded_size)) [
            | inl short ↦
                rw (some_bytes, short)
                  (ground (arith, room), ground arith, λ h. elim (lowered-open p.status h) [ ])
            | inr full ↦ rw (some_bytes, full) (ground (arith, room), ground arith, λ _. refl)
          ]
    ]

reconcile_chunks-AllChecked :
    (n : ℕ) (cs : List Chunk) (ps : List ChunkProgress)
    → n < 2 ^ 63
    → All IsPlaced cs
    → AllChecked n cs ps (reconcile_chunks (pos n) cs ps)
unfolding reconcile_chunks
reconcile_chunks-AllChecked n [] ps hn h = refl
reconcile_chunks-AllChecked n (c ∷ cs) [] hn h = refl
reconcile_chunks-AllChecked n (c ∷ cs) (p ∷ ps) hn (placed, rest) =
    (reconcile_chunk-Checked n c p hn placed, reconcile_chunks-AllChecked n cs ps hn rest)

-- After reconcileDiskProgress saw a file of `n` bytes: no entry counts a byte that the file does
-- not hold, none grew, and an entry counts as completed only if it is as it was before.
pub reconcile_disk_progress-AllChecked :
    (n : ℕ) (d : Downloader)
    → n < 2 ^ 63
    → All IsPlaced d.chunks
    → AllChecked n d.chunks d.progress (reconcile_disk_progress (some (pos n)) d).1.progress
unfolding reconcile_disk_progress
reconcile_disk_progress-AllChecked n d hn h = reconcile_chunks-AllChecked n d.chunks d.progress hn h

-- What has to hold when Start reports success for a file of a known size.
pub record IsComplete (total : ℤ) (stat : Option ℤ) (d : Downloader) : Type 0 where
  pub chunks_done : All (λ p. status_eq p.status Status.completed ≡ true) d.progress
  pub counted : eq_ℤ (sum_downloaded (pos 0) d.progress) total ≡ true
  pub on_disk : (size : ℤ) × (stat ≡ some size) × (eq_ℤ size total ≡ true)
