-- ===== src/Storage/Invariant/Transactions.antt =====
-- The operations of `StateManager` that run a transaction, and updates of one table.
use Prim.Native.String.{String}
use lunefetch.Base.{
  ℕ, suc, ◌==◌, ◌≡◌, ◌⊎◌, refl, sym, ◌∙◌, List, [], ◌∷◌, none, Bool, ◌||◌, not, All-map, arith, inl,
  length, text_eq,
}
use lunefetch.Base.Int64.{ℤ, pos, leb_ℤ}
use lunefetch.Storage.Record.{DownloadRecord, Db}
use lunefetch.Storage.Sql.{Error, pure, exec, exec_for, exec_checked, update_where}
use lunefetch.Storage.Keeps
use lunefetch.Storage.Keeps.{Keeps}
use lunefetch.Storage.Chunks.{create_chunks, insert_chunks, insert_chunk}
use lunefetch.Storage.Downloads.{
  has_id, update_download, NewDownload, insert_download, insert_with_chunks,
  create_download_with_chunks, update_total_size, close_last_chunk, normalize_categories,
  set_category,
}
use lunefetch.Storage.Invariant.Slots.{slot, update_slots}
use lunefetch.Storage.Rows.{All-update_where}
use lunefetch.Storage.Invariant.Sums.{IsSummed, IsOwned, sum_chunks-update_same}
use lunefetch.Storage.Invariant.Operations.{
  HasSlots-chunks, IsValid, update_downloads-IsValid, insert_download-IsValid, insert_chunk-IsValid,
}

-- An update of `downloads` that gives up a slot or keeps it.
pub update-Keeps :
    (p : DownloadRecord → Bool) (f : DownloadRecord → DownloadRecord)
    → ((r : DownloadRecord) → (f r).id ≡ r.id)
    → ((r : DownloadRecord) → (f r).downloaded_size ≡ r.downloaded_size)
    → ((r : DownloadRecord) → (slot (f r) ≡ slot r) ⊎ (slot (f r) ≡ none))
    → Keeps IsValid (exec (λ db. record db { downloads = update_where p f db.downloads }))
update-Keeps p f ids sizes slots =
    Keeps.exec-Keeps IsValid _
      (λ db v. update_downloads-IsValid p f db ids sizes (update_slots p f db ids slots v.slots) v)

insert_chunks-IsValid :
    (id i : ℕ) (starts ends : List ℤ) → Keeps IsValid (insert_chunks id i starts ends)
unfolding insert_chunks
insert_chunks-IsValid id i [] ends = Keeps.pure-Keeps IsValid tt
insert_chunks-IsValid id i (s ∷ ss) [] = Keeps.fail-Keeps IsValid (Unit {0}) Error.out_of_range
insert_chunks-IsValid id i (s ∷ ss) (e ∷ es) =
    Keeps.>>=-Keeps IsValid (exec_checked (insert_chunk id i s e)) _
      (Keeps.exec_checked-Keeps IsValid (insert_chunk id i s e)
        (λ db db' v h. insert_chunk-IsValid id i s e db db' v h))
      (λ _. insert_chunks-IsValid id (suc i) ss es)

pub create_chunks-IsValid :
    (id : ℕ) (starts ends : List ℤ) → Keeps IsValid (create_chunks id starts ends)
unfolding create_chunks
create_chunks-IsValid id starts ends = Keeps.transaction-Keeps IsValid _ (
    Keeps.>>=-Keeps IsValid (exec (λ db. db)) _ (Keeps.exec-Keeps IsValid (λ db. db) (λ db v. v))
      (λ _. insert_chunks-IsValid id 0 starts ends))

insert_with_chunks-IsValid :
    (new : NewDownload) (starts ends : List ℤ) (now : ℕ)
    → Keeps IsValid (insert_with_chunks new starts ends now)
unfolding insert_with_chunks
insert_with_chunks-IsValid new starts ends now =
    Keeps.>>=-Keeps IsValid (exec_for (λ db. db.next_download_id) (insert_download new now)) _
      (Keeps.exec_for-Keeps IsValid _ (insert_download new now)
        (λ db v. insert_download-IsValid new now db v))
      (λ id.
        Keeps.>>=-Keeps IsValid (insert_chunks id 0 starts ends) _
          (insert_chunks-IsValid id 0 starts ends) (λ _. Keeps.pure-Keeps IsValid id))

pub create_download_with_chunks-IsValid :
    (url filename save_dir category : String) (total : ℤ) (ranges : Bool) (starts ends : List ℤ)
    (etag modified : String) (now : ℕ)
    → Keeps IsValid (
        create_download_with_chunks url filename save_dir category total ranges starts ends etag
          modified now)
unfolding create_download_with_chunks
create_download_with_chunks-IsValid url filename save_dir category total ranges starts ends etag
      modified now =
    Keeps.if-Keeps IsValid (length starts == 0 || not (length starts == length ends)) _ _
      (Keeps.fail-Keeps IsValid ℕ Error.invalid_chunk_boundaries)
      (Keeps.transaction-Keeps IsValid _ (insert_with_chunks-IsValid _ starts ends now))

close_last_chunk-IsValid :
    (id : ℕ) (size : ℤ) (db : Db) → IsValid db → IsValid (close_last_chunk id size db)
unfolding close_last_chunk
close_last_chunk-IsValid id size db v = record {
  slots = HasSlots-chunks db _ v.slots;
  summed =
      All-map (IsSummed db.chunks) _ db.downloads
        (λ r s. s ∙ sym (sum_chunks-update_same r.id _ _ db.chunks (λ c. refl) (λ c. refl)))
        v.summed;
  owned = All-update_where (IsOwned db.downloads) _ _ _ db.chunks (λ c o. ground arith) v.owned;
}

pub update_total_size-IsValid :
    (id : ℕ) (size : ℤ) (now : ℕ) → Keeps IsValid (update_total_size id size now)
unfolding update_total_size update_download
update_total_size-IsValid id size now =
    Keeps.if-Keeps IsValid (leb_ℤ size (pos 0)) (pure tt) _ (Keeps.pure-Keeps IsValid tt) (
      Keeps.transaction-Keeps IsValid _ (
        Keeps.>>=-Keeps IsValid _ (λ _. exec (close_last_chunk id size))
          (update-Keeps (has_id id) (λ r. record r { total_size = size; updated_at = now })
            (λ r. refl) (λ r. refl) (λ r. inl refl))
          (λ _. Keeps.exec-Keeps IsValid _ (close_last_chunk-IsValid id size))))

pub normalize_categories-IsValid : Keeps IsValid normalize_categories
unfolding normalize_categories
normalize_categories-IsValid = Keeps.transaction-Keeps IsValid _ (
    Keeps.>>=-Keeps IsValid _ (λ _. exec (set_category (λ c. text_eq c "Archives") "Compressed"))
      (update-Keeps _ (λ r. record r { category = "Media" }) (λ r. refl) (λ r. refl)
        (λ r. inl refl))
      (λ _.
        update-Keeps _ (λ r. record r { category = "Compressed" }) (λ r. refl) (λ r. refl)
          (λ r. inl refl)))
