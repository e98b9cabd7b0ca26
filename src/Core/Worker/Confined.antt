-- ===== src/Core/Worker/Confined.antt =====
-- A worker writes in its chunk only, and counts what is there.
use lunefetch.Base.{
  ℕ, suc, ◌+◌, ◌≤◌, ◌<◌, ◌==◌, ◌≡◌, refl, sym, ap, ◌∙◌, if◌then◌else◌, List, [], ◌∷◌, ◌++◌, Bool,
  true, false, length, length-append, arith, inl, inr, ◌⊎◌,
}
use lunefetch.Base.Int64.{pos}
use lunefetch.Storage.Record.{Status}
use lunefetch.Core.Progress.{ChunkProgress}
use lunefetch.Core.Transfer.{File, write_at}
use lunefetch.Core.Worker.{Worker, give_up}
use lunefetch.Core.Worker.Extended.{Extended}

-- Writing leaves the bytes before and behind alone.
pub write_at-outside :
    (offset : ℕ) (bs : List ℕ) (f : File) (i : ℕ)
    → (i < offset) ⊎ (offset + length bs ≤ i)
    → write_at offset bs f i ≡ f i
unfolding write_at
write_at-outside offset [] f i h = refl
write_at-outside offset (b ∷ bs) f i h =
    write_at-outside (suc offset) bs (λ j. if j == offset then b else f j) i (ground arith)
    ∙ ground arith

-- After some attempts at a chunk of `n` bytes from `s`, which began with `k` bytes: `done` bytes are
-- counted, no fewer than before and no more than there are, and no byte outside of the rest of the
-- chunk changed.
pub record Confined (s n k : ℕ) (f : File) (w : Worker) : Type 0 where
  pub done : ℕ
  pub counted : w.progress.downloaded_size ≡ pos done
  pub kept : k ≤ done
  pub fits : done ≤ n
  pub outside : (i : ℕ) → (i < s + k) ⊎ (s + n ≤ i) → w.file i ≡ f i
  pub whole : w.progress.status ≡ Status.completed → done ≡ n

-- A worker whose entry has another status.
pub restate :
    (s n k : ℕ) (f : File) (w w' : Worker)
    → w'.progress.downloaded_size ≡ w.progress.downloaded_size
    → w'.file ≡ w.file
    → (x : Confined s n k f w) → (w'.progress.status ≡ Status.completed → x.done ≡ n)
    → Confined s n k f w'
restate s n k f w w' sizes files x all = record {
  done = x.done;
  counted = sizes ∙ x.counted;
  kept = x.kept;
  fits = x.fits;
  outside = λ i h. ap (λ g. g i) files ∙ x.outside i h;
  whole = all;
}

pub give_up-Confined :
    (s n k : ℕ) (f : File) (b : Bool) (w : Worker)
    → Confined s n k f w
    → Confined s n k f (give_up b w)
give_up-Confined s n k f true w x = x
give_up-Confined s n k f false w x = restate s n k f w (give_up false w) refl refl x (λ h. cc)

-- What an attempt at a worker's chunk leaves.
pub Extended-Confined :
    (bytes : List ℕ) (s n k : ℕ) (f : File) (w : Worker) (x : Confined s n k f w)
    (p' : ChunkProgress) (f' : File)
    → Extended bytes s n x.done w.file f' w.progress p'
    → Confined s n k f (record w { progress = p'; file = f' })
Extended-Confined bytes s n k f w x p' f' y = record {
  done = x.done + length y.stored;
  counted = y.counted;
  kept = omega (arith, x.kept);
  fits = omega (arith, y.fits);
  outside = λ i h.
      ap (λ g. g i) y.in_file
      ∙ write_at-outside (s + x.done) (y.stored ++ y.partial) w.file i (far i h)
      ∙ x.outside i h;
  whole = all;
}
  where
    far :
        (i : ℕ)
        → (i < s + k) ⊎ (s + n ≤ i)
        → (i < s + x.done) ⊎ (s + x.done + length (y.stored ++ y.partial) ≤ i)
    far i (inl h) = inl (omega (arith, x.kept))
    far i (inr h) = inr (omega (arith, y.fits, length-append y.stored y.partial))

    all : p'.status ≡ Status.completed → x.done + length y.stored ≡ n
    all h = elim y.restated [
      | inl (same, none_more) ↦ omega (arith, none_more, x.whole (sym same ∙ h))
      | inr busy ↦ cc
    ]
