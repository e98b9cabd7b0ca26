-- ===== src/Core/Chunks/Tiling.antt =====
-- The chunks of `CalculateChunks` as a tiling of the file.
use lunefetch.Base.{
  ap, ◌||◌, false, dec_lt, ℕ, zero, suc, min, max, ◌+◌, ◌-◌, ◌*◌, ◌/◌, ◌%◌, ◌^◌, ◌≤◌, ◌<◌, ◌≡◌,
  refl, List, [], ◌∷◌, ◌⊎◌, inl, inr, arith, length, All,
}
use lunefetch.Base.Int64.{ℤ, pos, negsuc, pos_part, leb_ℤ}
use lunefetch.Core.Chunks.{
  Chunk, capped_count, size_at, end_at, split_from, split_chunks, calculate_chunks,
}

-- The chunks are consecutive and not empty, from byte `a` up to, and without, byte `b`.
abbrev pub Tiles : ℕ → List Chunk → ℕ → Type 0
Tiles a [] b = a ≡ b
Tiles a (c ∷ cs) b =
    (n : ℕ) × (c.start ≡ pos a)
    × (c.end ≡ pos n)
    × (a ≤ n)
    × (c.downloaded ≡ pos 0)
    × Tiles (n + 1) cs b

-- The indices count up from `i`.
abbrev pub Numbered : ℕ → List Chunk → Type 0
Numbered i [] = Unit
Numbered i (c ∷ cs) = (c.index ≡ i) × Numbered (i + 1) cs

-- A chunk of `q` or `q + 1` bytes.
abbrev pub HasSize : ℕ → Chunk → Type 0
HasSize q c = (pos_part c.end + 1 ≡ pos_part c.start + q) ⊎ (pos_part c.end ≡ pos_part c.start + q)

-- What one round of the loop needs to know: no sum wraps, and the last chunk ends with the file.
module _ (r i k n q m s : ℕ) (small : n < 2 ^ 63) (some_bytes : 0 < q) (rem : m < k)
    (rounds : i + suc r ≡ k) (left : s + suc r * q + (m - i) ≡ n) where
  size_at-bounds : (size_at i q m ≡ q) ⊎ (size_at i q m ≡ q + 1)
  unfolding size_at
  size_at-bounds = ground arith

  end_at_lem : end_at i k n s (size_at i q m) + 1 ≡ s + size_at i q m
  unfolding end_at size_at
  end_at_lem = ground arith

  end_at-left : (end_at i k n s (size_at i q m) + 1) + r * q + (m - (i + 1)) ≡ n
  unfolding end_at size_at
  end_at-left = ground arith

split_from-Tiles :
    (r i k n q m s : ℕ)
    → n < 2 ^ 63
    → 0 < q
    → m < k
    → i + r ≡ k
    → s + r * q + (m - i) ≡ n
    → Tiles s (split_from r i k n q m s) n
unfolding split_from
split_from-Tiles zero i k n q m s hn hq hm hi hs = omega arith
split_from-Tiles (suc r) i k n q m s hn hq hm hi hs =
    let e : ℕ = end_at i k n s (size_at i q m) in
    let close : e + 1 ≡ s + size_at i q m = end_at_lem r i k n q m s hn hq hm hi hs in
    let rest : (e + 1) + r * q + (m - (i + 1)) ≡ n = end_at-left r i k n q m s hn hq hm hi hs in
    let fits : (e + 1) % 2 ^ 64 ≡ e + 1 = omega arith in
    let bytes : (size_at i q m ≡ q) ⊎ (size_at i q m ≡ q + 1) =
      size_at-bounds r i k n q m s hn hq hm hi hs in
    (
      e,
      ground arith,
      ground arith,
      omega arith,
      refl,
      rw fits (split_from-Tiles r (i + 1) k n q m (e + 1) hn hq hm (omega arith) rest),
    )

-- The number of chunks that the code settles on.
abbrev pub chunk_count : ℕ → ℤ → ℕ
chunk_count n k = max 1 (min (pos_part k) n)

quotient_facts :
    (n c : ℕ) → 0 < c → c ≤ n → (0 < n / c) × (n % c < c) × (0 + c * (n / c) + (n % c - 0) ≡ n)
quotient_facts n c hc hn = grind arith

capped_count-eq :
    (n k : ℕ) → 0 < n → 1 < k → (capped_count n k ≡ min k n) × (capped_count n k ≡ max 1 (min k n))
unfolding capped_count
capped_count-eq n k hn hk = (ground arith, ground arith)

abbrev whole_file : ℕ → Chunk
whole_file n = record { index = 0; start = pos 0; end = pos (n - 1); downloaded = pos 0 }

-- The two ways out of `calculate_chunks` for a file of a known size.
calculate_chunks-cases :
    (n : ℕ) (k : ℤ)
    → 0 < n
    → n < 2 ^ 63
    → ((chunk_count n k ≡ 1) × (calculate_chunks (pos n) k ≡ whole_file n ∷ []))
      ⊎ (calculate_chunks (pos n) k ≡ split_chunks n (chunk_count n k))
unfolding calculate_chunks
calculate_chunks-cases n (negsuc k) hn hb = inl (omega arith, ground arith)
calculate_chunks-cases n (pos k) hn hb = elim (dec_lt 1 k) [
  | yes h ↦
      let several : (leb_ℤ (pos k) (pos 1) || leb_ℤ (pos n) (pos 0)) ≡ false = ground arith in
      inr (rw (several, (capped_count-eq n k hn h).1))
  | no h ↦ inl (omega arith, ground arith)
]

split_chunks-Tiles : (n c : ℕ) → n < 2 ^ 63 → 0 < c → c ≤ n → Tiles 0 (split_chunks n c) n
unfolding split_chunks
split_chunks-Tiles n c hb hc hn =
    let (q, m, sum) = quotient_facts n c hc hn in
    split_from-Tiles c 0 c n (n / c) (n % c) 0 hb q m (omega arith) sum

-- The chunks of a file of a known size tile it: in order they cover every byte once, and none is
-- empty or marked as downloaded.
pub calculate_chunks-Tiles :
    (n : ℕ) (k : ℤ) → 0 < n → n < 2 ^ 63 → Tiles 0 (calculate_chunks (pos n) k) n
calculate_chunks-Tiles n k hn hb = elim (calculate_chunks-cases n k hn hb) [
  | inl (_, e) ↦ rw e (n - 1, refl, refl, omega arith, refl, omega arith)
  | inr e ↦ rw e (split_chunks-Tiles n (chunk_count n k) hb (omega arith) (omega arith))
]

split_from-Numbered :
    (r i k n q m s : ℕ)
    → Numbered i (split_from r i k n q m s) × (length (split_from r i k n q m s) ≡ r)
unfolding split_from
split_from-Numbered zero i k n q m s = (tt, refl)
split_from-Numbered (suc r) i k n q m s =
    let e : ℕ = end_at i k n s (size_at i q m) in
    let (numbers, count) = split_from-Numbered r (i + 1) k n q m ((e + 1) % 2 ^ 64) in
    ((refl, numbers), ap suc count)

-- The chunks are numbered from 0, and there are as many as were asked for, but at least one and at
-- most one for each byte.
pub calculate_chunks-Numbered :
    (n : ℕ) (k : ℤ)
    → 0 < n
    → n < 2 ^ 63
    → Numbered 0 (calculate_chunks (pos n) k)
      × (length (calculate_chunks (pos n) k) ≡ max 1 (min (pos_part k) n))
unfolding split_chunks
calculate_chunks-Numbered n k hn hb = elim (calculate_chunks-cases n k hn hb) [
  | inl (one, e) ↦ rw e ((refl, tt), omega arith)
  | inr e ↦ let c : ℕ = chunk_count n k in rw e (split_from-Numbered c 0 c n (n / c) (n % c) 0)
]

split_from-HasSize :
    (r i k n q m s : ℕ)
    → n < 2 ^ 63
    → 0 < q
    → m < k
    → i + r ≡ k
    → s + r * q + (m - i) ≡ n
    → All (HasSize q) (split_from r i k n q m s)
unfolding split_from
split_from-HasSize zero i k n q m s hn hq hm hi hs = tt
split_from-HasSize (suc r) i k n q m s hn hq hm hi hs =
    let e : ℕ = end_at i k n s (size_at i q m) in
    let close : e + 1 ≡ s + size_at i q m = end_at_lem r i k n q m s hn hq hm hi hs in
    let rest : (e + 1) + r * q + (m - (i + 1)) ≡ n = end_at-left r i k n q m s hn hq hm hi hs in
    let fits : (e + 1) % 2 ^ 64 ≡ e + 1 = omega arith in
    let bytes : (size_at i q m ≡ q) ⊎ (size_at i q m ≡ q + 1) =
      size_at-bounds r i k n q m s hn hq hm hi hs in
    (
      ground arith,
      rw fits (split_from-HasSize r (i + 1) k n q m (e + 1) hn hq hm (omega arith) rest),
    )

-- The load is even: with `c` chunks for `n` bytes each chunk has `n / c` or `n / c + 1` bytes.
pub calculate_chunks-HasSize :
    (n : ℕ) (k : ℤ)
    → 0 < n
    → n < 2 ^ 63
    → All (HasSize (n / chunk_count n k)) (calculate_chunks (pos n) k)
unfolding split_chunks
calculate_chunks-HasSize n k hn hb = elim (calculate_chunks-cases n k hn hb) [
  | inl (one, e) ↦ rw (e, one) (inl (omega arith), tt)
  | inr e ↦
      let c : ℕ = chunk_count n k in
      let (q, m, sum) = quotient_facts n c (omega arith) (omega arith) in
      rw e (split_from-HasSize c 0 c n (n / c) (n % c) 0 hb q m (omega arith) sum)
]
