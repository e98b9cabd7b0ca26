-- ===== src/Storage/Queue/Waiting.antt =====
-- The waiting downloads in the order of NextInQueue in internal/storage/state.go, and what it and
-- MarkDownloading make of them.
use mathlib.Core.Option
use lunefetch.Base.{
  ℕ, ◌==◌, ◌≡◌, ◌≢◌, refl, sym, ap, ◌∙◌, List, [], ◌∷◌, Option, none, some, Bool, true, ◌&&◌, not,
  filter_by, arith, Bool-cases, inl, inr,
}
use lunefetch.Storage.Record.{Status, DownloadRecord, Db, is_some}
use lunefetch.Storage.Sql.{select, update_where, insert_by, order_by}
use lunefetch.Storage.Downloads.{has_id, update_download}
use lunefetch.Storage.Ordering.{order_by-select}
use lunefetch.Storage.Queue.{is_queued, queue_leb, earlier, next_row, mark_rows}
use lunefetch.Storage.Queue.Next.{ids_of, key_leb-total, key_leb_trans}

abbrev pub waiting_rows : List DownloadRecord → List DownloadRecord
waiting_rows rs = order_by queue_leb (select is_queued rs)

abbrev pub waiting : Db → List ℕ
waiting db = ids_of (waiting_rows db.downloads)

abbrev pub without : ℕ → List ℕ → List ℕ
without id xs = filter_by (λ x. not (x == id)) xs

-- A row that waits has a position.
abbrev pub IsPlaced : DownloadRecord → Type 0
IsPlaced r = is_queued r ≡ true → is_some r.queue_position ≡ true

abbrev pub AreDifferent : DownloadRecord → DownloadRecord → Type 0
AreDifferent r s = r.id ≢ s.id

queue_leb-select :
    (p : DownloadRecord → Bool) (rs : List DownloadRecord)
    → select p (order_by queue_leb rs) ≡ order_by queue_leb (select p rs)
queue_leb-select =
    order_by-select queue_leb
      (λ a b. key_leb-total a.queue_position a.created_at b.queue_position b.created_at)
      (λ a b c.
        key_leb_trans a.queue_position a.created_at b.queue_position b.created_at c.queue_position
          c.created_at)

ids-select :
    (id : ℕ) (rs : List DownloadRecord)
    → ids_of (select (λ r. not (has_id id r)) rs) ≡ without id (ids_of rs)
unfolding select filter_by
ids-select id [] = refl
ids-select id (r ∷ rs) = ground (arith, ids-select id rs)

select-select :
    (id : ℕ) (rs : List DownloadRecord)
    → select (λ r. is_queued r && not (has_id id r)) rs
      ≡ select (λ r. not (has_id id r)) (select is_queued rs)
unfolding select
select-select id [] = refl
select-select id (r ∷ rs) = ground (arith, select-select id rs)

-- The other rows wait as before.
pub others_lem :
    (id : ℕ) (rs : List DownloadRecord)
    → ids_of (order_by queue_leb (select (λ r. is_queued r && not (has_id id r)) rs))
      ≡ without id (ids_of (waiting_rows rs))
others_lem id rs =
    ap (λ (l : List DownloadRecord). ids_of (order_by queue_leb l)) (select-select id rs)
    ∙ ap ids_of (sym (queue_leb-select (λ r. not (has_id id r)) (select is_queued rs)))
    ∙ ids-select id (waiting_rows rs)

-- The row that NextInQueue reads is the first that waits.
abbrev pub head : List ℕ → Option ℕ
head [] = none
head (x ∷ xs) = some x

abbrev first_row : List DownloadRecord → Option DownloadRecord
first_row [] = none
first_row (r ∷ rs) = some r

first_row-insert_by :
    (r : DownloadRecord) (rs : List DownloadRecord)
    → first_row (insert_by queue_leb r rs) ≡ earlier r (first_row rs)
unfolding insert_by
first_row-insert_by r [] = refl
first_row-insert_by r (s ∷ rs) = elim (Bool-cases (queue_leb r s)) [
  | inl le ↦ rw le refl
  | inr gt ↦ rw gt refl
]

first_row-waiting_rows : (rs : List DownloadRecord) → next_row rs ≡ first_row (waiting_rows rs)
unfolding next_row select order_by
first_row-waiting_rows [] = refl
first_row-waiting_rows (r ∷ rs) = elim (Bool-cases (is_queued r)) [
  | inl q ↦
      rw q
        (ap (earlier r) (first_row-waiting_rows rs) ∙ sym (first_row-insert_by r (waiting_rows rs)))
  | inr q ↦ rw q (first_row-waiting_rows rs)
]

pub head-waiting : (db : Db) → Option.map (λ r. r.id) (next_row db.downloads) ≡ head (waiting db)
head-waiting db =
    ap (Option.map (λ r. r.id)) (first_row-waiting_rows db.downloads)
    ∙ firsts (waiting_rows db.downloads)
  where
    firsts : (rs : List DownloadRecord) → Option.map (λ r. r.id) (first_row rs) ≡ head (ids_of rs)
    firsts [] = refl
    firsts (r ∷ rs) = refl

-- MarkDownloading takes a download out of those that wait.
select-marked :
    (id now : ℕ) (rs : List DownloadRecord)
    → select is_queued (
        update_where
          (has_id id)
          (λ r. record r { status = Status.downloading; queue_position = none; updated_at = now })
          rs)
      ≡ select (λ r. is_queued r && not (has_id id r)) rs
unfolding select update_where
select-marked id now [] = refl
select-marked id now (r ∷ rs) = elim (Bool-cases (has_id id r)) [
  | inl same ↦ rw same (ground (arith, select-marked id now rs))
  | inr other ↦ rw other (ground (arith, select-marked id now rs))
]

pub mark_rows-waiting :
    (id now : ℕ) (db : Db) → waiting (mark_rows id now db) ≡ without id (waiting db)
unfolding mark_rows update_download
mark_rows-waiting id now db =
    ap (λ (l : List DownloadRecord). ids_of (order_by queue_leb l))
      (select-marked id now db.downloads)
    ∙ others_lem id db.downloads
