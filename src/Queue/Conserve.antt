-- ===== src/Queue/Conserve.antt =====
-- The manager over any series of calls: no slot stays free while a download waits.
use lunefetch.Base.{
  ℕ, ◌+◌, ◌≡◌, refl, sym, ap, ◌∙◌, subst, if◌then◌else◌, List, [], Option, none, some, Bool, true,
  false, ◌&&◌, ◌⊎◌, contains, All, arith, Bool-cases, inl, inr,
}
use lunefetch.Storage.Record.{Status, status_eq, DownloadRecord, Db, is_some}
use lunefetch.Storage.Sql.{Conn, Result, ok, update_where, exec, query, first}
use lunefetch.Storage.Rows.{All-update_where}
use lunefetch.Storage.Downloads.{has_id, is_live, get_download}
use lunefetch.Storage.Queue.{is_queued, enqueue_download, enqueue_rows, max_position}
use lunefetch.Queue.{Manager, has_slot, enqueue_found, enqueue}
use lunefetch.Queue.Work.{IsClear, IsSettled}

-- No running download waits, and no slot is free while one waits.
pub record IsWorking (m : Manager) : Type 0 where
  pub settled : IsSettled m
  pub busy : (has_slot m ≡ false) ⊎ All (λ r. is_queued r ≡ false) m.state.db.downloads

pub exec_eq :
    (f : Db → Db) (c : Conn) → c.faults ≡ [] → exec f c ≡ (ok tt, record c { db = f c.db })
unfolding exec
exec_eq f c h = ground arith

pub query_eq : {A : Type 0} (g : Db → A) (c : Conn) → c.faults ≡ [] → query g c ≡ (ok (g c.db), c)
unfolding query
query_eq g c h = ground arith

-- What EnqueueDownload does to rows, none of which runs.
enqueue_rows-IsClear :
    (id now : ℕ) (xs : List ℕ) (db : Db)
    → contains xs id ≡ false
    → IsClear xs db.downloads
    → IsClear xs (enqueue_rows id now db).downloads
unfolding enqueue_rows
enqueue_rows-IsClear id now xs db idle clear =
    All-update_where (λ r. is_queued r ≡ true → contains xs r.id ≡ false) _ _ _ db.downloads
      (λ r h. queued r h) clear
  where
    queued :
        (r : DownloadRecord)
        → (is_queued r ≡ true → contains xs r.id ≡ false)
        → let s =
            (if has_id id r && is_live r
              then record r {
                status = Status.queued;
                queue_position = some (max_position db.downloads + 1);
                updated_at = now;
              }
              else r) in
          (is_queued s ≡ true → contains xs s.id ≡ false)
    queued r h = elim (Bool-cases (has_id id r && is_live r)) [
      | inl e ↦
          let same : r.id ≡ id = ground arith in
          rw e (λ q. subst (λ x. contains xs x ≡ false) (sym same) idle)
      | inr e ↦ rw e h
    ]

-- The connection after `enqueue`, with no fault.
unfoldable pub Enqueued : ℕ → ℕ → Conn → Conn → Type 0
Enqueued id now c d = (d ≡ c) ⊎ (d ≡ record c { db = enqueue_rows id now c.db })

enqueue_found-Enqueued :
    (now id : ℕ) (o : Option DownloadRecord) (c : Conn)
    → c.faults ≡ []
    → Enqueued id now c (enqueue_found now id o c).1
unfolding Enqueued enqueue_download
enqueue_found-Enqueued now id none c fine = inl refl
enqueue_found-Enqueued now id (some r) c fine = elim (Bool-cases (is_some r.deleted_at)) [
  | inl gone ↦ inl (rw gone)
  | inr live ↦ elim (Bool-cases (status_eq r.status Status.queued && is_some r.queue_position)) [
    | inl waits ↦ inl (rw (live, waits))
    | inr new ↦ inr (
        rw (live, new)
          (ap (λ (p : Result (Unit {0}) × Conn). p.1) (exec_eq (enqueue_rows id now) c fine)))
  ]
]

pub enqueue-Enqueued :
    (now id : ℕ) (c : Conn) → c.faults ≡ [] → Enqueued id now c (enqueue now id c).1
unfolding enqueue get_download
enqueue-Enqueued now id c fine =
    rw (query_eq (λ db. first (has_id id) db.downloads) c fine)
      (enqueue_found-Enqueued now id (first (has_id id) c.db.downloads) c fine)

pub Enqueued-IsSettled :
    (id now : ℕ) (m : Manager) (d : Conn)
    → Enqueued id now m.state d
    → contains m.active id ≡ false
    → IsSettled m
    → IsSettled (record m { state = d })
unfolding Enqueued
Enqueued-IsSettled id now m d (inl e) idle s = rw e (record { fine = s.fine; clear = s.clear })
Enqueued-IsSettled id now m d (inr e) idle s =
    rw e (record {
      fine = s.fine;
      clear = enqueue_rows-IsClear id now m.active m.state.db idle s.clear;
    })

-- An update that changes neither keys nor what waits.
pub update-IsClear :
    (p : DownloadRecord → Bool) (f : DownloadRecord → DownloadRecord) (xs : List ℕ)
    (rs : List DownloadRecord)
    → ((r : DownloadRecord) → (f r).id ≡ r.id)
    → ((r : DownloadRecord) → is_queued (f r) ≡ is_queued r)
    → IsClear xs rs
    → IsClear xs (update_where p f rs)
update-IsClear p f xs rs ids waits clear =
    All-update_where (λ r. is_queued r ≡ true → contains xs r.id ≡ false) _ p f rs (λ r h. kept r h)
      clear
  where
    kept :
        (r : DownloadRecord)
        → (is_queued r ≡ true → contains xs r.id ≡ false)
        → is_queued (if p r then f r else r) ≡ true
        → contains xs (if p r then f r else r).id ≡ false
    kept r h = elim (Bool-cases (p r)) [
      | inl e ↦ rw e (λ q. rw (ids r) (h (sym (waits r) ∙ q)))
      | inr e ↦ rw e h
    ]
