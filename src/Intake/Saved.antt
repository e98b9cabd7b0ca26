-- ===== src/Intake/Saved.antt =====
-- HandleAdd of internal/ui/layout/desktop.go against StartDownload of internal/ui/pages/downloads.go: the
-- chunks that a new download is saved with are those that its worker begins with.
use lunefetch.Base.{ℕ, suc, ◌≡◌, refl, sym, ap, ◌∙◌, List, [], ◌∷◌, length, map, arith, String}
use lunefetch.Base.Int64.{ℤ, pos}
use lunefetch.Storage.Record.{ChunkRecord, Db}
use lunefetch.Storage.Sql.{quiet, ok}
use lunefetch.Storage.Chunks.{get_chunks}
use lunefetch.Storage.Inserted.{new_chunks}
use lunefetch.Storage.Created.{create-get_chunks}
use lunefetch.Storage.Invariant.Operations.{IsValid}
use lunefetch.Core.Chunks.{Chunk, calculate_chunks}
use lunefetch.Core.Chunks.Fresh.{IsFresh, calculate_chunks-IsFresh}
use lunefetch.Core.Info.{FileInfo}
use lunefetch.Page.{chunk_def}
use lunefetch.Intake.{AddRequest, Context, or_default, wanted_chunks, save_download}

length-map : {A : Type 0} (f : Chunk → A) (cs : List Chunk) → length (map f cs) ≡ length cs
length-map f [] = refl
length-map f (c ∷ cs) = omega (arith, length-map f cs)

chunk_def-new_chunks :
    (key id i : ℕ) (cs : List Chunk)
    → IsFresh i cs
    → map chunk_def (new_chunks key id i (map (λ k. k.start) cs) (map (λ k. k.end) cs)) ≡ cs
unfolding new_chunks
chunk_def-new_chunks key id i [] fresh = refl
chunk_def-new_chunks key id i (c ∷ cs) (number, nothing, rest) =
    ap
      (λ (l : List Chunk).
        record { index = i; start = c.start; end = c.end; downloaded = pos 0 } ∷ l)
      (chunk_def-new_chunks (suc key) id (suc i) cs rest)
    ∙ ap (λ (n : ℕ). record { index = n; start = c.start; end = c.end; downloaded = pos 0 } ∷ cs)
        (sym number)
    ∙ ap (λ (z : ℤ). record { index = c.index; start = c.start; end = c.end; downloaded = z } ∷ cs)
        (sym nothing)

-- With no database error and valid tables: a new download is saved under the next key, and the chunks
-- that StartDownload reads for it are those that CalculateChunks makes of its size.
pub save_download-get_chunks :
    (x : Context) (now : ℕ) (req : AddRequest) (info : FileInfo) (filename category : String)
    (db : Db)
    → IsValid db
    → let r = save_download x now req info filename category (quiet db) in
      (r.0 ≡ ok db.next_download_id)
      × ((cs : List ChunkRecord) × ((get_chunks db.next_download_id r.1).0 ≡ ok cs)
          × (map chunk_def cs ≡ calculate_chunks info.size (wanted_chunks x info)))
unfolding save_download
save_download-get_chunks x now req info filename category db v =
    let ks : List Chunk = calculate_chunks info.size (wanted_chunks x info) in
    let (fresh, several) = calculate_chunks-IsFresh info.size (wanted_chunks x info) in
    let (saved, read) =
      create-get_chunks req.url filename (or_default req.save_dir x.download_dir) category info.size
        info.supports_range (map (λ k. k.start) ks) (map (λ k. k.end) ks) info.etag
        info.last_modified now db v (omega (arith, several, length-map (λ k. k.start) ks))
        (length-map (λ k. k.start) ks ∙ sym (length-map (λ k. k.end) ks)) in
    (saved, (_, read, chunk_def-new_chunks db.next_chunk_id db.next_download_id 0 ks fresh))
