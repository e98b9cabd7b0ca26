-- ===== src/Core/Chunks/Fresh.antt =====
-- The chunks of CalculateChunks in internal/core/downloader.go are numbered, and nothing of them is there.
use lunefetch.Base.{
  ℕ, zero, suc, ◌+◌, ◌/◌, ◌%◌, ◌<◌, ◌≡◌, refl, ap, List, [], ◌∷◌, ◌||◌, length, arith, Bool-cases,
  inl, inr,
}
use lunefetch.Base.Int64.{ℤ, pos, pos_part, leb_ℤ}
use lunefetch.Core.Chunks.{Chunk, calculate_chunks, split_from, split_chunks, capped_count}

-- Chunks numbered from `i` on, of which nothing is downloaded.
abbrev pub IsFresh : ℕ → List Chunk → Type 0
IsFresh i [] = Unit
IsFresh i (c ∷ cs) = (c.index ≡ i) × (c.downloaded ≡ pos 0) × IsFresh (suc i) cs

split_from-IsFresh : (r i j k n q m s : ℕ) → i ≡ j → IsFresh j (split_from r i k n q m s)
unfolding split_from
split_from-IsFresh zero i j k n q m s e = tt
split_from-IsFresh (suc r) i j k n q m s e =
    (e, refl, split_from-IsFresh r (i + 1) (suc j) k n q m _ (omega arith))

split_from-some : (r i k n q m s : ℕ) → length (split_from r i k n q m s) ≡ r
unfolding split_from
split_from-some zero i k n q m s = refl
split_from-some (suc r) i k n q m s = ap suc (split_from-some r (i + 1) k n q m _)

capped_count-pos : (size wanted : ℕ) → 0 < capped_count size wanted
unfolding capped_count
capped_count-pos size wanted = ground arith

pub calculate_chunks-IsFresh :
    (size wanted : ℤ)
    → IsFresh 0 (calculate_chunks size wanted) × (0 < length (calculate_chunks size wanted))
unfolding calculate_chunks split_chunks
calculate_chunks-IsFresh size wanted =
    let n : ℕ = capped_count (pos_part size) (pos_part wanted) in
    elim (Bool-cases (leb_ℤ wanted (pos 1) || leb_ℤ size (pos 0))) [
      | inl whole ↦ rw whole ((refl, refl, tt), omega arith)
      | inr parts ↦ rw parts (
        split_from-IsFresh n 0 0 n (pos_part size) (pos_part size / n) (pos_part size % n) 0 refl,
        omega (
          arith,
          capped_count-pos (pos_part size) (pos_part wanted),
          split_from-some n 0 n (pos_part size) (pos_part size / n) (pos_part size % n) 0,
        ),
      )
    ]
