-- ===== src/Storage/Invariant/Sums.antt =====
-- The size that a download records is the sum over its chunks, and each chunk has its download.
use lunefetch.Base.{
  ℕ, ◌<◌, ◌≡◌, ◌≢◌, refl, List, [], ◌∷◌, ◌++◌, Bool, true, false, ◌&&◌, not, All, Pairwise, All-map,
  All-zip, arith, Bool-cases, inl, inr,
}
use lunefetch.Base.Int64.{pos, ◌+ℤ◌}
use lunefetch.Storage.Record.{DownloadRecord, ChunkRecord, is_some}
use lunefetch.Storage.Sql.{update_where, select, first}
use lunefetch.Storage.Chunks.{of_download, sum_chunks}
use lunefetch.Storage.Downloads.{has_id}
use lunefetch.Storage.Invariant.Slots.{Apart, IsBelow}

abbrev pub IsSummed : List ChunkRecord → DownloadRecord → Type 0
IsSummed cs r = r.downloaded_size ≡ sum_chunks r.id cs

abbrev pub IsOwned : List DownloadRecord → ChunkRecord → Type 0
IsOwned rs c = is_some (first (has_id c.download_id) rs) ≡ true

-- Chunks of other downloads do not count.
pub sum_chunks-update_other :
    (id x : ℕ) (p : ChunkRecord → Bool) (f : ChunkRecord → ChunkRecord) (cs : List ChunkRecord)
    → ((c : ChunkRecord) → (f c).download_id ≡ c.download_id)
    → x ≢ id
    → sum_chunks x (update_where (λ c. of_download id c && p c) f cs) ≡ sum_chunks x cs
unfolding sum_chunks update_where
sum_chunks-update_other id x p f [] keep ne = refl
sum_chunks-update_other id x p f (c ∷ cs) keep ne =
    ground (arith, keep c, sum_chunks-update_other id x p f cs keep ne)

-- Nor does an update of other columns.
pub sum_chunks-update_same :
    (x : ℕ) (p : ChunkRecord → Bool) (f : ChunkRecord → ChunkRecord) (cs : List ChunkRecord)
    → ((c : ChunkRecord) → (f c).download_id ≡ c.download_id)
    → ((c : ChunkRecord) → (f c).downloaded_size ≡ c.downloaded_size)
    → sum_chunks x (update_where p f cs) ≡ sum_chunks x cs
unfolding sum_chunks update_where
sum_chunks-update_same x p f [] keep same = refl
sum_chunks-update_same x p f (c ∷ cs) keep same =
    ground (arith, keep c, same c, sum_chunks-update_same x p f cs keep same)

pub sum_chunks-append_empty :
    (x : ℕ) (cs : List ChunkRecord) (c : ChunkRecord)
    → c.downloaded_size ≡ pos 0
    → sum_chunks x (cs ++ c ∷ []) ≡ sum_chunks x cs
unfolding sum_chunks ◌+ℤ◌
sum_chunks-append_empty x [] c e = ground arith
sum_chunks-append_empty x (d ∷ cs) c e = ground (arith, sum_chunks-append_empty x cs c e)

-- A key that no chunk names sums to nothing.
pub sum_chunks-none :
    (x : ℕ) (cs : List ChunkRecord)
    → All (λ c. of_download x c ≡ false) cs
    → sum_chunks x cs ≡ pos 0
unfolding sum_chunks
sum_chunks-none x [] a = refl
sum_chunks-none x (c ∷ cs) a = ground (arith, sum_chunks-none x cs a.1)

pub sum_chunks-select :
    (x : ℕ) (keep : ChunkRecord → Bool) (cs : List ChunkRecord)
    → ((c : ChunkRecord) → c.download_id ≡ x → keep c ≡ true)
    → sum_chunks x (select keep cs) ≡ sum_chunks x cs
unfolding sum_chunks select
sum_chunks-select x keep [] h = refl
sum_chunks-select x keep (c ∷ cs) h = ground (arith, h c, sum_chunks-select x keep cs h)

-- An update that no row fits does nothing.
pub update_where-none :
    {R : Type 0} (p : R → Bool) (f : R → R) (rs : List R)
    → is_some (first p rs) ≡ false
    → update_where p f rs ≡ rs
unfolding update_where first
update_where-none p f [] h = refl
update_where-none p f (r ∷ rs) h = ground (arith, update_where-none p f rs)

pub first-none_All :
    {R : Type 0} (p : R → Bool) (rs : List R)
    → is_some (first p rs) ≡ false
    → All (λ r. p r ≡ false) rs
unfolding first
first-none_All p [] h = tt
first-none_All p (r ∷ rs) h = elim (Bool-cases (p r)) [
  | inl t ↦ cc (rw (t, first) at h)
  | inr t ↦ (t, first-none_All p rs (rw (t, first) at h))
]

pub All-first_none :
    {R : Type 0} (p : R → Bool) (rs : List R)
    → All (λ r. p r ≡ false) rs
    → is_some (first p rs) ≡ false
unfolding first
All-first_none p [] a = refl
All-first_none p (r ∷ rs) a = rw (a.0, first) (All-first_none p rs a.1)

-- The owner of a chunk has a key that was given out.
pub IsOwned-below :
    (n : ℕ) (rs : List DownloadRecord) (x : ℕ)
    → All (IsBelow n) rs
    → is_some (first (has_id x) rs) ≡ true
    → x < n
unfolding first
IsOwned-below n [] x a h = cc
IsOwned-below n (r ∷ rs) x a h = ground (arith, IsOwned-below n rs x a.1)

first-skip :
    {R : Type 0} (q : R → Bool) (x : R) (rs : List R)
    → q x ≡ false
    → is_some (first q rs) ≡ false
    → is_some (first q (x ∷ rs)) ≡ false
unfolding first
first-skip q x rs h k = rw (h, first) k

-- A row that stays has no row with its key among those that go.
pub stays-alone :
    (p : DownloadRecord → Bool) (rs : List DownloadRecord)
    → Pairwise Apart rs
    → All (λ r. p r ≡ false → is_some (first (λ s. p s && has_id r.id s) rs) ≡ false) rs
unfolding first
stays-alone p [] w = tt
stays-alone p (x ∷ rs) w = (
  λ px.
      rw (px, first)
        (All-first_none (λ s. p s && has_id x.id s) rs
          (All-map (Apart x) _ rs (λ s a. ground (arith, a.0)) w.0)),
  All-zip (Apart x) (λ r. p r ≡ false → is_some (first (λ s. p s && has_id r.id s) rs) ≡ false) _ rs
      (λ r a ih pr. first-skip (λ s. p s && has_id r.id s) x rs (ground (arith, a.0)) (ih pr)) w.0
      (stays-alone p rs w.1),
)

-- The owner of a chunk that stays is among the rows that stay.
pub first-select :
    (p : DownloadRecord → Bool) (x : ℕ) (rs : List DownloadRecord)
    → is_some (first (has_id x) rs) ≡ true
    → is_some (first (λ r. p r && has_id x r) rs) ≡ false
    → is_some (first (has_id x) (select (λ r. not (p r)) rs)) ≡ true
unfolding first select
first-select p x [] h k = cc
first-select p x (r ∷ rs) h k = ground (arith, first-select p x rs)
