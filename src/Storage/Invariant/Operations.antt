-- ===== src/Storage/Invariant/Operations.antt =====
-- Every operation of `StateManager` keeps the invariant of the tables.
use lunefetch.Base.{
  ℕ, ◌<◌, ◌==◌, ◌≡◌, ◌⊎◌, refl, ap, sym, subst, ◌∙◌, if◌then◌else◌, List, some, Bool, true, false,
  ◌&&◌, All, All-map, All-append, arith, Bool-cases, inl, inr,
}
use mathlib.Core.Option.{some-injective}
use lunefetch.Base.Int64.{ℤ, pos}
use lunefetch.Storage.Record.{DownloadRecord, ChunkRecord, Db, is_some}
use lunefetch.Storage.Sql.{update_where, first}
use lunefetch.Storage.Rows.{All-update_where, is_some-first-update_where, is_some-first-append}
use lunefetch.Storage.Chunks.{
  of_download, sum_chunks, admits_chunk, add_chunk, insert_chunk, update_progress,
}
use lunefetch.Storage.Downloads.{has_id, NewDownload, insert_download}
use lunefetch.Storage.Invariant.Slots.{HasSlots, update_slots, insert_download-HasSlots}
use lunefetch.Storage.Invariant.Sums.{
  IsSummed, IsOwned, sum_chunks-update_other, sum_chunks-append_empty, sum_chunks-none,
  update_where-none, IsOwned-below,
}

pub record IsValid (db : Db) : Type 0 where
  -- Keys differ and are below the next key; no two waiting rows share a position.
  pub slots : HasSlots db
  -- The recorded size is the sum over the chunks.
  pub summed : All (IsSummed db.chunks) db.downloads
  -- Each chunk has its download.
  pub owned : All (IsOwned db.downloads) db.chunks

-- The part of the invariant that is about chunks.
pub record IsBooked (db : Db) : Type 0 where
  pub summed : All (IsSummed db.chunks) db.downloads
  pub owned : All (IsOwned db.downloads) db.chunks

-- An update that leaves keys and sizes alone keeps the books.
pub update_downloads-IsBooked :
    (p : DownloadRecord → Bool) (f : DownloadRecord → DownloadRecord) (db : Db)
    → ((r : DownloadRecord) → (f r).id ≡ r.id)
    → ((r : DownloadRecord) → (f r).downloaded_size ≡ r.downloaded_size)
    → IsBooked db
    → IsBooked (record db { downloads = update_where p f db.downloads })
update_downloads-IsBooked p f db ids sizes v = record {
  summed =
      All-update_where (IsSummed db.chunks) (IsSummed db.chunks) p f db.downloads
        (λ r s. IsSummed-update r s) v.summed;
  owned =
      All-map (IsOwned db.downloads) (IsOwned (update_where p f db.downloads)) db.chunks
        (λ c o.
          is_some-first-update_where (has_id c.download_id) p f db.downloads
            (λ r. ap (λ i. i == c.download_id) (ids r))
          ∙ o)
        v.owned;
}
  where
    IsSummed-update :
        (r : DownloadRecord) → IsSummed db.chunks r → IsSummed db.chunks (if p r then f r else r)
    IsSummed-update r s = ground (arith, ids r, sizes r)

-- If it moves no row to an occupied slot, it keeps the invariant.
pub update_downloads-IsValid :
    (p : DownloadRecord → Bool) (f : DownloadRecord → DownloadRecord) (db : Db)
    → ((r : DownloadRecord) → (f r).id ≡ r.id)
    → ((r : DownloadRecord) → (f r).downloaded_size ≡ r.downloaded_size)
    → HasSlots (record db { downloads = update_where p f db.downloads })
    → IsValid db
    → IsValid (record db { downloads = update_where p f db.downloads })
update_downloads-IsValid p f db ids sizes slots v =
    let books =
      update_downloads-IsBooked p f db ids sizes (record { summed = v.summed; owned = v.owned }) in
    record { slots = slots; summed = books.summed; owned = books.owned }

pub insert_download-IsValid :
    (new : NewDownload) (now : ℕ) (db : Db) → IsValid db → IsValid (insert_download new now db)
unfolding insert_download
insert_download-IsValid new now db v = record {
  slots = insert_download-HasSlots new now db v.slots;
  summed = All-append (IsSummed db.chunks) db.downloads _ v.summed (
    sym (
        sum_chunks-none db.next_download_id db.chunks (
          All-map (IsOwned db.downloads) _ db.chunks
            (λ c o.
              let old : c.download_id < db.next_download_id =
                IsOwned-below db.next_download_id db.downloads c.download_id v.slots.below o in
              ground arith)
            v.owned)),
    tt,
  );
  owned =
      All-map (IsOwned db.downloads) _ db.chunks
        (λ c o. is_some-first-append (has_id c.download_id) db.downloads _ o) v.owned;
}

add_chunk-IsValid :
    (id index : ℕ) (start end : ℤ) (db : Db)
    → is_some (first (has_id id) db.downloads) ≡ true
    → IsValid db
    → IsValid (add_chunk id index start end db)
unfolding add_chunk
add_chunk-IsValid id index start end db o v = record {
  slots = record { apart = v.slots.apart; below = v.slots.below };
  summed =
      All-map (IsSummed db.chunks) _ db.downloads
        (λ r s. s ∙ sym (sum_chunks-append_empty r.id db.chunks _ refl)) v.summed;
  owned = All-append (IsOwned db.downloads) db.chunks _ v.owned (o, tt);
}

admits_chunk-owner :
    (db : Db) (id index : ℕ)
    → admits_chunk db id index ≡ true
    → is_some (first (has_id id) db.downloads) ≡ true
unfolding admits_chunk
admits_chunk-owner db id index h = ground arith

insert_chunk-admitted :
    (id index : ℕ) (start end : ℤ) (db db' : Db)
    → admits_chunk db id index ≡ true
    → insert_chunk id index start end db ≡ some db'
    → add_chunk id index start end db ≡ db'
unfolding insert_chunk
insert_chunk-admitted id index start end db db' t e = some-injective _ _ (rw (t, insert_chunk) at e)

insert_chunk-refused :
    (id index : ℕ) (start end : ℤ) (db db' : Db)
    → admits_chunk db id index ≡ false
    → insert_chunk id index start end db ≡ some db'
    → ⊥
unfolding insert_chunk
insert_chunk-refused id index start end db db' t e = cc (rw (t, insert_chunk) at e)

-- A chunk that the constraints let in keeps the invariant.
pub insert_chunk-IsValid :
    (id index : ℕ) (start end : ℤ) (db db' : Db)
    → IsValid db
    → insert_chunk id index start end db ≡ some db'
    → IsValid db'
insert_chunk-IsValid id index start end db db' v e = elim (Bool-cases (admits_chunk db id index)) [
  | inl t ↦
      let same : add_chunk id index start end db ≡ db' =
        insert_chunk-admitted id index start end db db' t e in
      subst IsValid same
        (add_chunk-IsValid id index start end db (admits_chunk-owner db id index t) v)
  | inr t ↦ absurd (insert_chunk-refused id index start end db db' t e)
]

pub HasSlots-chunks :
    (db : Db) (cs : List ChunkRecord) → HasSlots db → HasSlots (record db { chunks = cs })
HasSlots-chunks db cs s = record { apart = s.apart; below = s.below }

-- The rows of one download may for a moment record nothing while their chunks still do.
abbrev pub IsSummedBut : ℕ → List ChunkRecord → DownloadRecord → Type 0
IsSummedBut id cs r = IsSummed cs r ⊎ ((r.id ≡ id) × (r.downloaded_size ≡ pos 0))

module _ (id now : ℕ) (p : ChunkRecord → Bool) (f : ChunkRecord → ChunkRecord) (db : Db)
    (keep : (c : ChunkRecord) → (f c).download_id ≡ c.download_id) (slots : HasSlots db)
    (summed : All (IsSummedBut id db.chunks) db.downloads)
    (owned : All (IsOwned db.downloads) db.chunks) where
  updated : List ChunkRecord
  updated = update_where (λ c. of_download id c && p c) f db.chunks

  unfoldable pub touches : Bool
  touches = is_some (first (λ c. of_download id c && p c) db.chunks)

  IsSummed-triggered :
      (r : DownloadRecord)
      → IsSummedBut id db.chunks r
      → IsSummed updated (
          if has_id id r
          then record r { downloaded_size = sum_chunks id updated; updated_at = now }
          else r)
  unfolding updated
  IsSummed-triggered r s = ground (arith, sum_chunks-update_other id r.id p f db.chunks keep)

  IsOwned-updated :
      (rs : List DownloadRecord) → All (IsOwned rs) db.chunks → All (IsOwned rs) updated
  unfolding updated
  IsOwned-updated rs o =
      All-update_where (IsOwned rs) (IsOwned rs) (λ c. of_download id c && p c) f db.chunks
        (λ c h. ground (arith, keep c)) o

  pub update_progress-fired : touches ≡ true → IsValid (update_progress id now p f db)
  unfolding update_progress touches updated
  update_progress-fired fired = rw fired (record {
    slots = HasSlots-chunks _ updated (
        update_slots (has_id id)
          (λ r. record r { downloaded_size = sum_chunks id updated; updated_at = now }) db
          (λ r. refl) (λ r. inl refl) slots);
    summed =
        All-update_where (IsSummedBut id db.chunks) _ (has_id id) _ db.downloads IsSummed-triggered
          summed;
    owned = IsOwned-updated _ (
        All-map (IsOwned db.downloads) _ db.chunks
          (λ c o.
            is_some-first-update_where (has_id c.download_id) (has_id id) _ db.downloads (λ r. refl)
            ∙ o)
          owned);
  })

  pub update_progress-idle :
      touches ≡ false
      → All (IsSummed db.chunks) db.downloads
      → IsValid (update_progress id now p f db)
  unfolding update_progress touches updated
  update_progress-idle idle sums =
      rw (idle, update_where-none (λ c. of_download id c && p c) f db.chunks idle)
        (record { slots = slots; summed = sums; owned = owned })

-- A write of chunk progress brings the download's size up to date.
pub update_progress-IsValid :
    (id now : ℕ) (p : ChunkRecord → Bool) (f : ChunkRecord → ChunkRecord) (db : Db)
    → ((c : ChunkRecord) → (f c).download_id ≡ c.download_id)
    → IsValid db
    → IsValid (update_progress id now p f db)
update_progress-IsValid id now p f db keep v =
    let but : All (IsSummedBut id db.chunks) db.downloads =
      All-map (IsSummed db.chunks) _ db.downloads (λ r s. inl s) v.summed in
    elim (Bool-cases (touches id now p f db keep v.slots but v.owned)) [
      | inl t ↦ update_progress-fired id now p f db keep v.slots but v.owned t
      | inr t ↦ update_progress-idle id now p f db keep v.slots but v.owned t v.summed
    ]
