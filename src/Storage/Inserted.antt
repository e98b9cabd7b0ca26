-- ===== src/Storage/Inserted.antt =====
-- The loop of CreateDownloadWithChunks in internal/storage/state.go that inserts the chunks.
use lunefetch.Base.{
  ℕ, suc, ◌+◌, ◌==◌, ◌≡◌, refl, sym, ap, ◌∙◌, List, [], ◌∷◌, ◌++◌, none, true, false, ◌&&◌, leb,
  length, All, All-map, All-append, append_assoc, arith,
}
use lunefetch.Base.Int64.{ℤ, pos}
use lunefetch.Storage.Record.{Status, DownloadRecord, ChunkRecord, Db, is_some}
use lunefetch.Storage.Sql.{quiet, Conn, Result, ok, and_then, exec_checked, first}
use lunefetch.Storage.Chunks.{of_download, insert_chunk, insert_chunks}

-- The rows that the loop inserts.
abbrev pub new_chunk : ℕ → ℕ → ℕ → ℤ → ℤ → ChunkRecord
new_chunk key id i s e = record {
  id = key;
  download_id = id;
  chunk_index = i;
  start_byte = s;
  end_byte = e;
  downloaded_size = pos 0;
  status = Status.pending;
  error = none;
  retry_count = 0;
}

unfoldable pub new_chunks : ℕ → ℕ → ℕ → List ℤ → List ℤ → List ChunkRecord
new_chunks key id i [] ends = []
new_chunks key id i (s ∷ ss) [] = []
new_chunks key id i (s ∷ ss) (e ∷ es) =
    new_chunk key id i s e ∷ new_chunks (suc key) id (suc i) ss es

-- No chunk of the download has the index `i` or a later one.
abbrev pub IsFreeFrom : ℕ → ℕ → ChunkRecord → Type 0
IsFreeFrom id i c = (of_download id c && leb i c.chunk_index) ≡ false

free-first :
    (id i : ℕ) (cs : List ChunkRecord)
    → All (IsFreeFrom id i) cs
    → is_some (first (λ c. of_download id c && c.chunk_index == i) cs) ≡ false
unfolding first
free-first id i [] h = refl
free-first id i (c ∷ cs) h = ground (arith, h.0, free-first id i cs h.1)

abbrev pub with_chunks : List ChunkRecord → ℕ → Db → Db
with_chunks cs key db = record db { chunks = cs; next_chunk_id = key }

append_nil : (cs : List ChunkRecord) → cs ++ [] ≡ cs
append_nil [] = refl
append_nil (c ∷ cs) = ap (λ l. c ∷ l) (append_nil cs)

abbrev saved : Db → Result (Unit {0}) × Conn
saved db = (ok tt, quiet db)

abbrev after_chunk : ℕ → ℕ → ℤ → ℤ → Db → Db
after_chunk id i s e db =
    with_chunks (db.chunks ++ new_chunk db.next_chunk_id id i s e ∷ []) (suc db.next_chunk_id) db

insert_chunk_lem :
    (id i : ℕ) (s e : ℤ) (db : Db)
    → is_some (first (λ (d : DownloadRecord). d.id == id) db.downloads) ≡ true
    → All (IsFreeFrom id i) db.chunks
    → exec_checked (insert_chunk id i s e) (quiet db) ≡ saved (after_chunk id i s e db)
unfolding exec_checked insert_chunk
insert_chunk_lem id i s e db row free = rw (row, free-first id i db.chunks free)

pub insert_chunks_lem :
    (id i : ℕ) (ss es : List ℤ) (db : Db)
    → length ss ≡ length es
    → is_some (first (λ (d : DownloadRecord). d.id == id) db.downloads) ≡ true
    → All (IsFreeFrom id i) db.chunks
    → insert_chunks id i ss es (quiet db) ≡ (
      ok tt,
      quiet (
          with_chunks
            (db.chunks ++ new_chunks db.next_chunk_id id i ss es)
            (db.next_chunk_id + length ss)
            db),
    )
unfolding insert_chunks new_chunks exec_checked insert_chunk
insert_chunks_lem id i [] es db same row free =
    ap (λ (k : ℕ). saved (with_chunks db.chunks k db)) (omega arith)
    ∙ ap (λ (cs : List ChunkRecord). saved (with_chunks cs (db.next_chunk_id + 0) db))
        (sym (append_nil db.chunks))
insert_chunks_lem id i (s ∷ ss) [] db same row free = absurd (omega (arith, same))
insert_chunks_lem id i (s ∷ ss) (e ∷ es) db same row free =
    ap (λ r. and_then r (λ _. insert_chunks id (suc i) ss es))
      (insert_chunk_lem id i s e db row free)
    ∙ insert_chunks_lem id (suc i) ss es (after_chunk id i s e db) (omega (arith, same)) row (
        All-append (IsFreeFrom id (suc i)) db.chunks _
          (All-map (IsFreeFrom id i) (IsFreeFrom id (suc i)) db.chunks (λ c f. ground (arith, f))
            free)
          (ground arith, tt))
    ∙ ap (λ (cs : List ChunkRecord). saved (with_chunks cs (suc db.next_chunk_id + length ss) db))
        (append_assoc db.chunks (new_chunk db.next_chunk_id id i s e ∷ []) _)
    ∙ ap
        (λ (k : ℕ).
          saved
            (with_chunks (db.chunks ++ new_chunks db.next_chunk_id id i (s ∷ ss) (e ∷ es)) k db))
        (omega arith)
