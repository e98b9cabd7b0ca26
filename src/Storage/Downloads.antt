-- ===== src/Storage/Downloads.antt =====
-- The table `downloads`: creation, look-up and the single-row updates of
-- internal/storage/state.go.
use Prim.Native.Nat.{Ordering}
use Prim.Native.String.{compare}
use lunefetch.Base.{
  ℕ, suc, ◌==◌, ltb, leb, if◌then◌else◌, List, [], ◌∷◌, ◌++◌, Option, none, some, Bool, true, false,
  ◌&&◌, ◌||◌, not, length, String, text_eq,
}
use lunefetch.Base.Int64.{ℤ, pos, sub64, leb_ℤ, ltb_ℤ}
use lunefetch.Storage.Record.{Status, status_eq, DownloadRecord, Db, is_some}
use lunefetch.Storage.Sql.{
  M, Conn, Error, Result, ok, err, pure, fail, ◌>>=◌, ◌>>◌, exec, exec_for, query, transaction,
  update_where, select, first, order_by,
}
use lunefetch.Storage.Chunks.{insert_chunks, of_download}

-- deleted_at IS NULL
abbrev pub is_live : DownloadRecord → Bool
is_live r = not (is_some r.deleted_at)

abbrev pub has_id : ℕ → DownloadRecord → Bool
has_id id r = r.id == id

-- UPDATE downloads SET … WHERE id = id
unfoldable pub update_download : ℕ → (DownloadRecord → DownloadRecord) → Db → Db
update_download id f db = record db { downloads = update_where (has_id id) f db.downloads }

-- NULLIF(t, '')
abbrev pub null_if_empty : String → Option String
null_if_empty t = if text_eq t "" then none else some t

-- What the caller of a create supplies.
pub record NewDownload : Type 0 where
  pub url : String
  pub filename : String
  pub save_dir : String
  pub category : String
  pub total_size : ℤ
  pub supports_ranges : Bool
  pub num_chunks : ℕ
  pub etag : Option String
  pub last_modified : Option String

-- INSERT INTO downloads (…): the other columns take their defaults.
unfoldable pub insert_download : NewDownload → ℕ → Db → Db
insert_download new now db = record db {
  downloads =
      db.downloads
      ++ record {
        id = db.next_download_id;
        url = new.url;
        filename = new.filename;
        save_dir = new.save_dir;
        category = new.category;
        speed_limit = pos 0;
        total_size = new.total_size;
        downloaded_size = pos 0;
        status = Status.pending;
        supports_ranges = new.supports_ranges;
        num_chunks = new.num_chunks;
        etag = new.etag;
        last_modified = new.last_modified;
        queue_position = none;
        scheduled_at = none;
        created_at = now;
        updated_at = now;
        deleted_at = none;
      }
        ∷ [];
  next_download_id = suc db.next_download_id;
}

unfoldable pub create_download : String → String → String → String → ℤ → Bool → ℕ → ℕ → M ℕ
unfolding insert_download
create_download url filename save_dir category total_size supports_ranges num_chunks now =
    exec_for (λ db. db.next_download_id)
      (insert_download
        (record {
          url = url;
          filename = filename;
          save_dir = save_dir;
          category = category;
          total_size = total_size;
          supports_ranges = supports_ranges;
          num_chunks = num_chunks;
          etag = none;
          last_modified = none;
        })
        now)

-- The body of the transaction of CreateDownloadWithChunks.
unfoldable pub insert_with_chunks : NewDownload → List ℤ → List ℤ → ℕ → M ℕ
insert_with_chunks new starts ends now = do
  id ← exec_for (λ db. db.next_download_id) (insert_download new now)
  insert_chunks id 0 starts ends
  pure id

unfoldable pub create_download_with_chunks :
    String → String → String → String → ℤ → Bool → List ℤ → List ℤ → String → String → ℕ → M ℕ
create_download_with_chunks url filename save_dir category total_size supports_ranges starts ends
      etag last_modified now =
    if length starts == 0 || not (length starts == length ends)
    then fail Error.invalid_chunk_boundaries
    else transaction (
        insert_with_chunks
          (record {
            url = url;
            filename = filename;
            save_dir = save_dir;
            category = category;
            total_size = total_size;
            supports_ranges = supports_ranges;
            num_chunks = length starts;
            etag = null_if_empty etag;
            last_modified = null_if_empty last_modified;
          })
          starts ends now)

unfoldable pub update_speed_limit : ℕ → ℤ → ℕ → M (Unit {0})
unfolding update_download
update_speed_limit id limit now =
    exec (update_download id (λ r. record r { speed_limit = limit; updated_at = now }))

unfoldable pub find_by_url : String → M (Option DownloadRecord)
find_by_url url = query (λ db. first (λ r. text_eq r.url url && is_live r) db.downloads)

abbrev pub found_some : Result (List DownloadRecord) × Conn → Bool × Conn
found_some (ok rs, c) = (ltb 0 (length rs), c)
found_some (err e, c) = (false, c)

-- A failing query leaves the count at 0.
unfoldable pub filename_exists : String → Conn → Bool × Conn
filename_exists filename c =
    found_some (query (λ db. select (λ r. text_eq r.filename filename && is_live r) db.downloads) c)

-- UPDATE downloads SET status = 'paused' WHERE status = 'downloading' AND deleted_at IS NULL
unfoldable pub reconcile_interrupted : ℕ → M (Unit {0})
reconcile_interrupted now = exec (λ db. record db {
  downloads =
      update_where (λ r. status_eq r.status Status.downloading && is_live r)
        (λ r. record r { status = Status.paused; updated_at = now }) db.downloads;
})

unfoldable pub update_download_status : ℕ → Status → ℕ → M (Unit {0})
unfolding update_download
update_download_status id status now =
    exec (update_download id (λ r. record r { status = status; updated_at = now }))

unfoldable pub update_download_filename : ℕ → String → ℕ → M (Unit {0})
unfolding update_download
update_download_filename id filename now =
    exec (update_download id (λ r. record r { filename = filename; updated_at = now }))

-- UPDATE chunks SET end_byte = size - 1 WHERE download_id = id AND end_byte < 0
unfoldable pub close_last_chunk : ℕ → ℤ → Db → Db
close_last_chunk id size db = record db {
  chunks =
      update_where (λ c. of_download id c && ltb_ℤ c.end_byte (pos 0))
        (λ c. record c { end_byte = sub64 size (pos 1) }) db.chunks;
}

unfoldable pub update_total_size : ℕ → ℤ → ℕ → M (Unit {0})
unfolding update_download close_last_chunk
update_total_size id size now =
    if leb_ℤ size (pos 0)
    then pure tt
    else transaction do
      exec (update_download id (λ r. record r { total_size = size; updated_at = now }))
      exec (close_last_chunk id size)

unfoldable pub set_validators : ℕ → String → String → ℕ → M (Unit {0})
unfolding update_download
set_validators id etag last_modified now = exec (
    update_download id (λ r. record r {
      etag = null_if_empty etag;
      last_modified = null_if_empty last_modified;
      updated_at = now;
    }))

unfoldable pub set_scheduled_at : ℕ → Option String → ℕ → M (Unit {0})
unfolding update_download
set_scheduled_at id at now =
    exec (update_download id (λ r. record r { scheduled_at = at; updated_at = now }))

-- GetDownload reads deleted rows too.
unfoldable pub get_download : ℕ → M (Option DownloadRecord)
get_download id = query (λ db. first (has_id id) db.downloads)

-- scheduled_at <= hhmm; NULL is at or before no time.
abbrev pub is_due : String → Option String → Bool
is_due hhmm none = false
is_due hhmm (some at) = elim (compare at hhmm) [ Ordering.gt ↦ false | _ ↦ true ]

unfoldable pub list_scheduled_due : String → M (List DownloadRecord)
list_scheduled_due hhmm = query (λ db.
    select (λ r. status_eq r.status Status.scheduled && is_due hhmm r.scheduled_at && is_live r)
      db.downloads)

-- NULLS LAST
abbrev pub position_leb : Option ℕ → Option ℕ → Bool
position_leb none none = true
position_leb none (some b) = false
position_leb (some a) none = true
position_leb (some a) (some b) = leb a b

-- The position where the row is queued, and otherwise NULL.
abbrev list_position : DownloadRecord → Option ℕ
list_position r = if status_eq r.status Status.queued then r.queue_position else none

abbrev queued_flag : DownloadRecord → ℕ
queued_flag r = if status_eq r.status Status.queued then 1 else 0

-- The three keys of ORDER BY, in their order.
pub list_leb : DownloadRecord → DownloadRecord → Bool
list_leb a b =
    if not (queued_flag a == queued_flag b)
    then ltb (queued_flag a) (queued_flag b)
    else if position_leb (list_position a) (list_position b)
        && not (position_leb (list_position b) (list_position a))
    then true
    else if position_leb (list_position b) (list_position a)
        && not (position_leb (list_position a) (list_position b))
    then false
    else leb a.created_at b.created_at

unfoldable pub list_downloads : M (List DownloadRecord)
unfolding list_leb
list_downloads = query (λ db. order_by list_leb (select is_live db.downloads))

-- The last step of `migrate`: category names of older versions.
abbrev pub set_category : (String → Bool) → String → Db → Db
set_category p to db = record db {
  downloads = update_where (λ r. p r.category) (λ r. record r { category = to }) db.downloads;
}

unfoldable pub normalize_categories : M (Unit {0})
normalize_categories = transaction do
  exec (set_category (λ c. text_eq c "Videos" || text_eq c "Music" || text_eq c "Images") "Media")
  exec (set_category (λ c. text_eq c "Archives") "Compressed")
