-- ===== src/Storage/Invariant/Removal.antt =====
-- Rows that are purged, reset, or deleted with their file.
use lunefetch.Base.{
  ℕ, ◌==◌, ◌≡◌, ◌⊎◌, refl, ap, sym, subst, ◌∙◌, if◌then◌else◌, List, none, some, Bool, true, false,
  ◌&&◌, not, All, All-map, All-zip, arith, Bool-cases, inl, inr, length,
}
use lunefetch.Base.Int64.{pos}
use lunefetch.Storage.Record.{Status, DownloadRecord, ChunkRecord, Db, is_some}
use lunefetch.Storage.Sql.{
  M, Conn, Error, ok, fail, ◌>>=◌, ◌>>◌, exec, exec_for, select, first, is_faulty, elapse,
}
use lunefetch.Storage.Rows.{All-update_where, All-select-true, is_some-first-update_where}
use lunefetch.Storage.Keeps.{Keeps, transaction-end, exec-exec}
use lunefetch.Storage.Chunks.{of_download}
use lunefetch.Storage.Downloads.{has_id, is_live}
use lunefetch.Storage.History.{
  delete_rows, reset_chunks, update_live, reset_progress, delete_with_file,
}
use lunefetch.Storage.Invariant.Slots.{slot, HasSlots, update_slots, delete_rows-HasSlots}
use lunefetch.Storage.Invariant.Sums.{
  IsSummed, IsOwned, sum_chunks-none, sum_chunks-select, first-none_All, stays-alone, first-select,
}
use lunefetch.Storage.Invariant.Operations.{
  IsValid, IsSummedBut, touches, update_progress-fired, update_progress-idle,
}

stays :
    (p : DownloadRecord → Bool) (rs : List DownloadRecord) (c : ChunkRecord) (x : ℕ)
    → is_some (first (λ s. p s && has_id x s) rs) ≡ false
    → c.download_id ≡ x
    → not (is_some (first (λ s. p s && has_id c.download_id s) rs)) ≡ true
stays p rs c x h e = rw (e, h)

-- A purge takes the chunks of the rows that go and no others.
pub delete_rows-IsValid :
    (p : DownloadRecord → Bool) (db : Db) → IsValid db → IsValid (delete_rows p db)
unfolding delete_rows
delete_rows-IsValid p db v = record {
  slots = delete_rows-HasSlots p db v.slots;
  summed =
      All-select-true _ (λ r. not (p r)) db.downloads
        (All-zip (IsSummed db.chunks)
          (λ r. p r ≡ false → is_some (first (λ s. p s && has_id r.id s) db.downloads) ≡ false) _
          db.downloads
          (λ r s alone q.
            s
            ∙ sym (
                sum_chunks-select r.id _ db.chunks
                  (λ c e. stays p db.downloads c r.id (alone (ground arith)) e)))
          v.summed (stays-alone p db.downloads v.slots.apart));
  owned = All-select-true _ _ db.chunks (
      All-map (IsOwned db.downloads) _ db.chunks
        (λ c o k. first-select p c.download_id db.downloads o (ground arith)) v.owned);
}

-- Between the two statements the rows of `id` may record nothing.
record IsResetting (id : ℕ) (db : Db) : Type 0 where
  slots : HasSlots db
  summed : All (IsSummedBut id db.chunks) db.downloads
  owned : All (IsOwned db.downloads) db.chunks

update_live-IsResetting :
    (id : ℕ) (f : DownloadRecord → DownloadRecord) (db : Db)
    → ((r : DownloadRecord) → (f r).id ≡ r.id)
    → ((r : DownloadRecord) → (f r).downloaded_size ≡ pos 0)
    → ((r : DownloadRecord) → (slot (f r) ≡ slot r) ⊎ (slot (f r) ≡ none))
    → IsValid db
    → IsResetting id (update_live id f db)
unfolding update_live
update_live-IsResetting id f db ids zero slots v = record {
  slots = update_slots (λ r. has_id id r && is_live r) f db ids slots v.slots;
  summed =
      All-update_where (IsSummed db.chunks) (IsSummedBut id db.chunks)
        (λ r. has_id id r && is_live r) f db.downloads (λ r s. ground (arith, ids r, zero r))
        v.summed;
  owned =
      All-map (IsOwned db.downloads) _ db.chunks
        (λ c o.
          is_some-first-update_where (has_id c.download_id) (λ r. has_id id r && is_live r) f
            db.downloads (λ r. ap (λ i. i == c.download_id) (ids r))
          ∙ o)
        v.owned;
}

-- With no chunk of `id` in the table, recording nothing is right.
IsSummed-idle :
    (id : ℕ) (cs : List ChunkRecord) (r : DownloadRecord)
    → All (λ c. (of_download id c && true) ≡ false) cs
    → IsSummedBut id cs r
    → IsSummed cs r
IsSummed-idle id cs r none_left (inl s) = s
IsSummed-idle id cs r none_left (inr (e, z)) =
    z
    ∙ sym (
        sum_chunks-none r.id cs
          (All-map (λ c. (of_download id c && true) ≡ false) _ cs (λ c h. ground arith) none_left))

reset_chunks-IsValid :
    (id now : ℕ) (f : ChunkRecord → ChunkRecord) (db : Db)
    → ((c : ChunkRecord) → (f c).download_id ≡ c.download_id)
    → IsResetting id db
    → IsValid (reset_chunks id now f db)
unfolding reset_chunks touches first
reset_chunks-IsValid id now f db keep v =
    elim (Bool-cases (touches id now (λ _. true) reset db keep v.slots v.summed v.owned)) [
      | inl t ↦ update_progress-fired id now (λ _. true) reset db keep v.slots v.summed v.owned t
      | inr t ↦
          update_progress-idle id now (λ _. true) reset db keep v.slots v.summed v.owned t
            (All-map (IsSummedBut id db.chunks) _ db.downloads
              (λ r s. IsSummed-idle id db.chunks r (first-none_All _ db.chunks (idle t)) s)
              v.summed)
    ]
  where
    reset : ChunkRecord → ChunkRecord
    reset c = record (f c) { downloaded_size = pos 0; status = Status.pending }

    idle :
        touches id now (λ _. true) reset db keep v.slots v.summed v.owned ≡ false
        → is_some (first (λ c. of_download id c && true) db.chunks) ≡ false
    idle t = t

-- DeleteWithFile keeps the invariant, whichever statements fail.
pub delete_with_file-IsValid : (id now : ℕ) → Keeps IsValid (delete_with_file id now)
unfolding delete_with_file
delete_with_file-IsValid id now c v =
    transaction-end IsValid (exec remove >> exec (reset_chunks id now (λ c. c))) c v (λ _ e.
      subst IsValid (sym (exec-exec remove (reset_chunks id now (λ c. c)) (elapse c) e)) (
        reset_chunks-IsValid id now (λ c. c) (remove c.db) (λ c. refl)
          (update_live-IsResetting id _ c.db (λ r. refl) (λ r. refl) (λ r. inr (ground arith)) v)))
  where
    remove : Db → Db
    remove =
        update_live id
          (λ r. record r { deleted_at = some now; updated_at = now; downloaded_size = pos 0 })

module _ (g : Db → ℕ) (f h : Db → Db) where
  reset_body : M (Unit {0})
  reset_body = do affected ← exec_for g f; if affected == 0 then fail Error.not_found else exec h

  reset_body-rows : (c : Conn) → (reset_body c).0 ≡ ok tt → (reset_body c).1.db ≡ h (f c.db)
  unfolding reset_body exec_for exec
  reset_body-rows c e = elim (Bool-cases (is_faulty c.faults)) [
    | inl bad ↦ cc (rw (bad, exec_for) at e)
    | inr good ↦ elim (Bool-cases (g c.db == 0)) [
      | inl zero_rows ↦ cc (rw (zero_rows) at (rw (good, exec_for) at e))
      | inr some_rows ↦ elim (Bool-cases (is_faulty (elapse c).faults)) [
        | inl bad ↦ cc (rw (bad, exec) at (rw (some_rows) at (rw (good, exec_for) at e)))
        | inr fine ↦ rw (good, exec_for) (rw some_rows (rw (fine, exec)))
      ]
    ]
  ]

-- ResetProgress keeps the invariant, whichever statements fail.
pub reset_progress-IsValid :
    (id : ℕ) (status : Status) (now : ℕ) → Keeps IsValid (reset_progress id status now)
unfolding reset_progress reset_body
reset_progress-IsValid id status now c v =
    transaction-end IsValid (reset_body affected restart clear) c v (λ _ e.
      subst IsValid (sym (reset_body-rows affected restart clear (elapse c) e)) (
        reset_chunks-IsValid id now (λ d. record d { error = none; retry_count = 0 }) (restart c.db)
          (λ c. refl)
          (update_live-IsResetting id _ c.db (λ r. refl) (λ r. refl) (λ r. inr (ground arith)) v)))
  where
    affected : Db → ℕ
    affected db = length (select (λ r. has_id id r && is_live r) db.downloads)

    restart : Db → Db
    restart = update_live id (λ r. record r {
      downloaded_size = pos 0;
      status = status;
      queue_position = none;
      updated_at = now;
    })

    clear : Db → Db
    clear = reset_chunks id now (λ c. record c { error = none; retry_count = 0 })
