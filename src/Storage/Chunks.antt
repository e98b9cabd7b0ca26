-- ===== src/Storage/Chunks.antt =====
-- The table `chunks`: CreateChunks, UpdateChunkProgress and GetChunks of
-- internal/storage/state.go, with the trigger and the constraints of its schema.
use lunefetch.Base.{
  ℕ, suc, ◌==◌, leb, if◌then◌else◌, List, [], ◌∷◌, ◌++◌, Option, none, some, Bool, true, false,
  ◌&&◌,
}
use lunefetch.Base.Int64.{ℤ, pos, ◌+ℤ◌}
use lunefetch.Storage.Record.{Status, DownloadRecord, ChunkRecord, Db, is_some}
use lunefetch.Storage.Sql.{
  M, Error, pure, fail, ◌>>◌, exec, exec_checked, query, transaction, update_where, select, first,
  order_by,
}

abbrev pub of_download : ℕ → ChunkRecord → Bool
of_download id c = c.download_id == id

-- SELECT COALESCE(SUM(downloaded_size), 0) FROM chunks WHERE download_id = id
unfoldable pub sum_chunks : ℕ → List ChunkRecord → ℤ
sum_chunks id [] = pos 0
sum_chunks id (c ∷ cs) =
    if of_download id c then c.downloaded_size +ℤ sum_chunks id cs else sum_chunks id cs

-- The foreign key and the unique index (download_id, chunk_index).
unfoldable pub admits_chunk : Db → ℕ → ℕ → Bool
unfolding first
admits_chunk db id index =
    is_some (first (λ (d : DownloadRecord). d.id == id) db.downloads)
    && (if is_some
          (first (λ (c : ChunkRecord). of_download id c && c.chunk_index == index) db.chunks)
        then false
        else true)

-- INSERT INTO chunks (…) VALUES (id, index, start, end, 'pending')
unfoldable pub add_chunk : ℕ → ℕ → ℤ → ℤ → Db → Db
add_chunk id index start end db = record db {
  chunks =
      db.chunks
      ++ record {
        id = db.next_chunk_id;
        download_id = id;
        chunk_index = index;
        start_byte = start;
        end_byte = end;
        downloaded_size = pos 0;
        status = Status.pending;
        error = none;
        retry_count = 0;
      }
        ∷ [];
  next_chunk_id = suc db.next_chunk_id;
}

-- The insertion, which the constraints may refuse.
unfoldable pub insert_chunk : ℕ → ℕ → ℤ → ℤ → Db → Option Db
unfolding admits_chunk add_chunk
insert_chunk id index start end db =
    if admits_chunk db id index then some (add_chunk id index start end db) else none

-- The loop over `startBytes`; `endBytes[i]` panics where the second slice is shorter.
unfoldable pub insert_chunks : ℕ → ℕ → List ℤ → List ℤ → M (Unit {0})
unfolding insert_chunk
insert_chunks id i [] ends = pure tt
insert_chunks id i (s ∷ ss) [] = fail Error.out_of_range
insert_chunks id i (s ∷ ss) (e ∷ es) = do
  exec_checked (insert_chunk id i s e)
  insert_chunks id (suc i) ss es

unfoldable pub create_chunks : ℕ → List ℤ → List ℤ → M (Unit {0})
create_chunks id starts ends = transaction do
  exec (λ db. db)  -- tx.Prepare
  insert_chunks id 0 starts ends

-- AFTER UPDATE OF downloaded_size ON chunks, for rows of the download `id`. The trigger runs for
-- each row that was updated; the last run sees them all.
unfoldable pub trigger_progress : ℕ → ℕ → Bool → Db → Db
trigger_progress id now fired db =
    if fired
    then record db {
      downloads =
          update_where (λ d. d.id == id)
            (λ d. record d { downloaded_size = sum_chunks id db.chunks; updated_at = now })
            db.downloads;
    }
    else db

-- UPDATE chunks SET downloaded_size = …, … WHERE download_id = id AND p
unfoldable pub update_progress :
    ℕ → ℕ → (ChunkRecord → Bool) → (ChunkRecord → ChunkRecord) → Db → Db
unfolding trigger_progress
update_progress id now p f db =
    trigger_progress id now (is_some (first (λ c. of_download id c && p c) db.chunks))
      (record db { chunks = update_where (λ c. of_download id c && p c) f db.chunks })

unfoldable pub update_chunk_progress : ℕ → ℕ → ℤ → Status → ℕ → M (Unit {0})
unfolding update_progress
update_chunk_progress id index size status now = exec (
    update_progress id now (λ c. c.chunk_index == index)
      (λ c. record c { downloaded_size = size; status = status }))

unfoldable pub get_chunks : ℕ → M (List ChunkRecord)
get_chunks id =
    query
      (λ db. order_by (λ a b. leb a.chunk_index b.chunk_index) (select (of_download id) db.chunks))
