-- ===== src/Storage/Invariant/Slots.antt =====
-- Two rows of `downloads` have different keys, and no two waiting rows share a queue position.
use lunefetch.Base.{
  ℕ, ◌+◌, ◌≤◌, ◌<◌, ◌==◌, ◌≡◌, ◌≢◌, sym, ◌∙◌, ◌⊎◌, refl, if◌then◌else◌, List, [], ◌∷◌, Option, none,
  some, Bool, true, false, ◌&&◌, max, All, Pairwise, All-map, All-append, arith, inl, inr,
}
use lunefetch.Storage.Record.{Status, DownloadRecord, Db}
use lunefetch.Storage.Sql.{update_where}
use lunefetch.Storage.Rows.{
  All-update_where, Pairwise-update_where, Pairwise-append_one, Pairwise-select, All-select,
}
use lunefetch.Storage.Downloads.{is_live, has_id, NewDownload, insert_download}
use lunefetch.Storage.Queue.{is_queued, position_or_zero, max_position, enqueue_rows}
use lunefetch.Storage.History.{delete_rows}

-- The position of a row that waits.
abbrev pub slot : DownloadRecord → Option ℕ
slot r = if is_queued r then r.queue_position else none

abbrev pub clash : Option ℕ → Option ℕ → Bool
clash none q = false
clash (some a) none = false
clash (some a) (some b) = a == b

abbrev pub Apart : DownloadRecord → DownloadRecord → Type 0
Apart r s = (r.id ≢ s.id) × (clash (slot r) (slot s) ≡ false)

abbrev pub IsBelow : ℕ → DownloadRecord → Type 0
IsBelow n r = r.id < n

pub record HasSlots (db : Db) : Type 0 where
  pub apart : Pairwise Apart db.downloads
  pub below : All (IsBelow db.next_download_id) db.downloads

-- An update of rows that gives each row its own position, no position, or leaves it.
pub update_slots :
    (p : DownloadRecord → Bool) (f : DownloadRecord → DownloadRecord) (db : Db)
    → ((r : DownloadRecord) → (f r).id ≡ r.id)
    → ((r : DownloadRecord) → (slot (f r) ≡ slot r) ⊎ (slot (f r) ≡ none))
    → HasSlots db
    → HasSlots (record db { downloads = update_where p f db.downloads })
update_slots p f db ids slots v = record {
  apart =
      Pairwise-update_where (λ _. Unit {0}) Apart Apart p f db.downloads
        (λ r s _ _ a. ground (arith, ids r, ids s, slots r, slots s))
        (All-map (λ r. r.id < db.next_download_id) (λ _. Unit {0}) db.downloads (λ _ _. tt) v.below)
        v.apart;
  below =
      All-update_where (IsBelow db.next_download_id) (IsBelow db.next_download_id) p f db.downloads
        (λ r b. ground (arith, ids r)) v.below;
}

abbrev pub SlotLe : ℕ → Option ℕ → Type 0
SlotLe m none = Unit
SlotLe m (some p) = p ≤ m

SlotLe-mono : (m n : ℕ) (o : Option ℕ) → m ≤ n → SlotLe m o → SlotLe n o
SlotLe-mono m n none h l = tt
SlotLe-mono m n (some p) h l = omega arith

max_slot-bounds :
    (q : Bool) (o : Option ℕ) (m : ℕ)
    → SlotLe (if q then max (position_or_zero o) m else m) (if q then o else none)
      × (m ≤ (if q then max (position_or_zero o) m else m))
max_slot-bounds true none m = (tt, omega arith)
max_slot-bounds true (some p) m = (omega arith, omega arith)
max_slot-bounds false o m = (tt, omega arith)

-- No waiting row stands above the maximum.
pub SlotLe-max_position :
    (rs : List DownloadRecord) → All (λ r. SlotLe (max_position rs) (slot r)) rs
unfolding max_position
SlotLe-max_position [] = tt
SlotLe-max_position (r ∷ rs) =
    let (head, grows) = max_slot-bounds (is_queued r) r.queue_position (max_position rs) in
    (
      head,
      All-map (λ s. SlotLe (max_position rs) (slot s)) _ rs
          (λ s h. SlotLe-mono (max_position rs) _ (slot s) grows h) (SlotLe-max_position rs),
    )

fresh-clash :
    (m : ℕ) (o : Option ℕ)
    → SlotLe m o
    → (clash (some (m + 1)) o ≡ false) × (clash o (some (m + 1)) ≡ false)
fresh-clash m none h = (refl, refl)
fresh-clash m (some p) h = (ground arith, ground arith)

-- The slot that enqueueing gives to a row with the key, and to any other.
slot-enqueued :
    (id now m : ℕ) (r : DownloadRecord)
    → let e =
        (if has_id id r && is_live r
          then record r { status = Status.queued; queue_position = some (m + 1); updated_at = now }
          else r) in
      (e.id ≡ r.id) × (((r.id ≡ id) × (slot e ≡ some (m + 1))) ⊎ (slot e ≡ slot r))
slot-enqueued id now m r = ground arith

Apart-slots :
    (r s : DownloadRecord) (o q : Option ℕ) (n m : ℕ)
    → r.id ≢ s.id
    → clash (slot r) (slot s) ≡ false
    → SlotLe m (slot r)
    → SlotLe m (slot s)
    → ((r.id ≡ n) × (o ≡ some (m + 1))) ⊎ (o ≡ slot r)
    → ((s.id ≡ n) × (q ≡ some (m + 1))) ⊎ (q ≡ slot s)
    → clash o q ≡ false
Apart-slots r s o q n m ne apart lr ls (inl (ir, er)) (inl (is, es)) = absurd (ne (ir ∙ sym is))
Apart-slots r s o q n m ne apart lr ls (inl (ir, er)) (inr es) =
    rw (er, es) (fresh-clash m (slot s) ls).0
Apart-slots r s o q n m ne apart lr ls (inr er) (inl (is, es)) =
    rw (er, es) (fresh-clash m (slot r) lr).1
Apart-slots r s o q n m ne apart lr ls (inr er) (inr es) = rw (er, es) apart

-- A queued row takes a position that no waiting row has.
pub enqueue_rows-HasSlots : (id now : ℕ) (db : Db) → HasSlots db → HasSlots (enqueue_rows id now db)
unfolding enqueue_rows
enqueue_rows-HasSlots id now db v =
    let m : ℕ = max_position db.downloads in
    record {
      apart =
          Pairwise-update_where (λ r. SlotLe m (slot r)) Apart Apart (λ r. has_id id r && is_live r)
            _ db.downloads
            (λ r s lr ls a.
              let (ir, er) = slot-enqueued id now m r in
              let (is, es) = slot-enqueued id now m s in
              (rw (ir, is) a.0, Apart-slots r s _ _ id m a.0 a.1 lr ls er es))
            (SlotLe-max_position db.downloads) v.apart;
      below =
          All-update_where (IsBelow db.next_download_id) (IsBelow db.next_download_id) _ _
            db.downloads (λ r b. rw (slot-enqueued id now m r).0 b) v.below;
    }

pub insert_download-HasSlots :
    (new : NewDownload) (now : ℕ) (db : Db) → HasSlots db → HasSlots (insert_download new now db)
unfolding insert_download
insert_download-HasSlots new now db v = record {
  apart = Pairwise-append_one Apart db.downloads _ v.apart (
      All-map (IsBelow db.next_download_id) _ db.downloads (λ r b. (omega arith, ground arith))
        v.below);
  below =
      All-append _ db.downloads _
        (All-map (IsBelow db.next_download_id) _ db.downloads (λ r b. omega arith) v.below)
        (omega arith, tt);
}

pub delete_rows-HasSlots :
    (p : DownloadRecord → Bool) (db : Db) → HasSlots db → HasSlots (delete_rows p db)
unfolding delete_rows
delete_rows-HasSlots p db v = record {
  apart = Pairwise-select Apart _ db.downloads v.apart;
  below = All-select (IsBelow db.next_download_id) _ db.downloads v.below;
}
