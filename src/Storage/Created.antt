-- ===== src/Storage/Created.antt =====
-- What CreateDownloadWithChunks of internal/storage/state.go saves is what GetChunks reads.
use lunefetch.Base.{
  ℕ, suc, ◌+◌, ◌<◌, ◌==◌, ◌≡◌, refl, ap, ◌∙◌, List, [], ◌∷◌, ◌++◌, Bool, true, false, ◌||◌, not,
  leb, length, All, All-map, arith, String, ==_refl,
}
use lunefetch.Base.Int64.{ℤ}
use lunefetch.Storage.Record.{DownloadRecord, ChunkRecord, Db, is_some}
use lunefetch.Storage.Sql.{
  quiet, Conn, Result, ok, and_then, commit, pure, exec_for, query, transaction, select, first,
  order_by, insert_by,
}
use lunefetch.Storage.Downloads.{
  has_id, NewDownload, insert_download, insert_with_chunks, create_download_with_chunks,
}
use lunefetch.Storage.Invariant.Slots.{IsBelow}
use lunefetch.Storage.Invariant.Sums.{IsOwned}
use lunefetch.Storage.Invariant.Operations.{IsValid}
use lunefetch.Storage.Chunks.{of_download, get_chunks}
use lunefetch.Storage.Inserted.{new_chunk, new_chunks, IsFreeFrom, with_chunks, insert_chunks_lem}

-- Rows in the order of their index stay in it.
order-new_chunks :
    (key id i : ℕ) (ss es : List ℤ)
    → order_by (λ a b. leb a.chunk_index b.chunk_index) (new_chunks key id i ss es)
      ≡ new_chunks key id i ss es
unfolding order_by insert_by new_chunks
order-new_chunks key id i [] es = refl
order-new_chunks key id i (s ∷ ss) [] = refl
order-new_chunks key id i (s ∷ ss) (e ∷ es) =
    rw (order-new_chunks (suc key) id (suc i) ss es) (first_stays ss es)
  where
    first_stays :
        (ss es : List ℤ)
        → insert_by
            (λ a b. leb a.chunk_index b.chunk_index)
            (new_chunk key id i s e)
            (new_chunks (suc key) id (suc i) ss es)
          ≡ new_chunk key id i s e ∷ new_chunks (suc key) id (suc i) ss es
    first_stays [] es = refl
    first_stays (t ∷ ts) [] = refl
    first_stays (t ∷ ts) (f ∷ fs) = ground arith

module _ (q : ChunkRecord → Bool) where
  select-append : (cs ds : List ChunkRecord) → select q (cs ++ ds) ≡ select q cs ++ select q ds
  unfolding select
  select-append [] ds = refl
  select-append (c ∷ cs) ds = ground (arith, select-append cs ds)

  select-none : (cs : List ChunkRecord) → All (λ c. q c ≡ false) cs → select q cs ≡ []
  unfolding select
  select-none [] h = refl
  select-none (c ∷ cs) h = ground (arith, h.0, select-none cs h.1)

select-new_chunks :
    (key id i : ℕ) (ss es : List ℤ)
    → select (of_download id) (new_chunks key id i ss es) ≡ new_chunks key id i ss es
unfolding select new_chunks
select-new_chunks key id i [] es = refl
select-new_chunks key id i (s ∷ ss) [] = refl
select-new_chunks key id i (s ∷ ss) (e ∷ es) =
    rw (==_refl id)
      (ap (λ l. new_chunk key id i s e ∷ l) (select-new_chunks (suc key) id (suc i) ss es))

-- The new row is found, and no chunk of a valid table is of a download to come.
first-last :
    (p : DownloadRecord → Bool) (rs : List DownloadRecord) (r : DownloadRecord)
    → p r ≡ true
    → is_some (first p (rs ++ r ∷ [])) ≡ true
unfolding first
first-last p [] r h = rw h refl
first-last p (s ∷ rs) r h = ground (arith, first-last p rs r h)

below-first :
    (n id : ℕ) (rs : List DownloadRecord)
    → All (IsBelow n) rs
    → is_some (first (has_id id) rs) ≡ true
    → id < n
unfolding first
below-first n id [] h found = cc
below-first n id (r ∷ rs) h found = ground (arith, h.0, below-first n id rs h.1)

IsValid-free : (db : Db) → IsValid db → All (IsFreeFrom db.next_download_id 0) db.chunks
IsValid-free db v =
    All-map (IsOwned db.downloads) _ db.chunks
      (λ c owned.
        ground
          (arith, below-first db.next_download_id c.download_id db.downloads v.slots.below owned))
      v.owned

-- The tables after the transaction.
abbrev after_create : NewDownload → List ℤ → List ℤ → ℕ → Db → Db
after_create new ss es now db =
    with_chunks (db.chunks ++ new_chunks db.next_chunk_id db.next_download_id 0 ss es)
      (db.next_chunk_id + length ss) (insert_download new now db)

module _ (ss es : List ℤ) (now : ℕ) (db : Db) (v : IsValid db) (same : length ss ≡ length es) where
  insert_with_chunks_lem :
      (new : NewDownload)
      → transaction (insert_with_chunks new ss es now) (quiet db)
        ≡ (ok db.next_download_id, quiet (after_create new ss es now db))
  unfolding transaction insert_with_chunks exec_for insert_download
  insert_with_chunks_lem new =
      ap (λ (r : Result (Unit {0}) × Conn). commit db (and_then r (λ _. pure db.next_download_id)))
        (insert_chunks_lem db.next_download_id 0 ss es (insert_download new now db) same
          (first-last (has_id db.next_download_id) db.downloads _ (==_refl db.next_download_id))
          (IsValid-free db v))

  get_chunks_lem :
      (new : NewDownload)
      → (get_chunks db.next_download_id (quiet (after_create new ss es now db))).0
        ≡ ok (new_chunks db.next_chunk_id db.next_download_id 0 ss es)
  unfolding get_chunks query
  get_chunks_lem new =
      let old : List ChunkRecord = db.chunks in
      let news : List ChunkRecord = new_chunks db.next_chunk_id db.next_download_id 0 ss es in
      ap (λ (cs : List ChunkRecord). ok (order_by (λ a b. leb a.chunk_index b.chunk_index) cs))
        (select-append (of_download db.next_download_id) old news
          ∙ ap (λ (cs : List ChunkRecord). cs ++ select (of_download db.next_download_id) news)
              (select-none (of_download db.next_download_id) old (
                All-map (IsFreeFrom db.next_download_id 0) _ old (λ c f. ground (arith, f))
                  (IsValid-free db v)))
          ∙ select-new_chunks db.next_chunk_id db.next_download_id 0 ss es)
      ∙ ap (λ (cs : List ChunkRecord). ok cs)
          (order-new_chunks db.next_chunk_id db.next_download_id 0 ss es)

-- With no database error and valid tables, for as many starts as ends, one at least: the key that
-- CreateDownloadWithChunks answers is the next one, and GetChunks of it reads a chunk for each start, in
-- order, with its start, its end and its index, nothing of it downloaded.
pub create-get_chunks :
    (url filename dir category : String) (total : ℤ) (ranges : Bool) (ss es : List ℤ)
    (etag modified : String) (now : ℕ) (db : Db)
    → IsValid db
    → 0 < length ss
    → length ss ≡ length es
    → let r =
        create_download_with_chunks url filename dir category total ranges ss es etag modified now
          (quiet db) in
      (r.0 ≡ ok db.next_download_id)
      × ((get_chunks db.next_download_id r.1).0
          ≡ ok (new_chunks db.next_chunk_id db.next_download_id 0 ss es))
unfolding create_download_with_chunks
create-get_chunks url filename dir category total ranges ss es etag modified now db v some_chunks
      same =
    let none_yet : (length ss == 0 || not (length ss == length es)) ≡ false = ground arith in
    rw none_yet (
      rw (insert_with_chunks_lem ss es now db v same _)
        (refl, get_chunks_lem ss es now db v same _))
