-- ===== src/Storage/Queue/Fifo.antt =====
-- The queue of internal/storage/state.go as a first-in, first-out queue of keys: EnqueueDownload,
-- MarkDownloading and NextInQueue over any series of calls.
use lunefetch.Base.{
  ℕ, ◌≡◌, refl, ap, ◌∙◌, subst, if◌then◌else◌, List, [], ◌∷◌, map, Option, Bool, ◌&&◌, All, All-map,
  Pairwise, arith,
}
use mathlib.Core.Option
use lunefetch.Storage.Record.{DownloadRecord, Db}
use lunefetch.Storage.Sql.{quiet, Conn, Result, ok, err, exec, query, update_where}
use lunefetch.Storage.Rows.{All-update_where, Pairwise-update_where, is_some-first-update_where}
use lunefetch.Storage.Downloads.{is_live, has_id, update_download}
use lunefetch.Storage.Queue.{
  enqueue_rows, mark_rows, enqueue_download, mark_downloading, next_in_queue,
}
use lunefetch.Storage.Queue.Waiting.{
  waiting, without, IsPlaced, AreDifferent, head, head-waiting, mark_rows-waiting,
}
use lunefetch.Storage.Queue.Enqueued.{put_last, is_known, enqueue_rows-waiting}
use lunefetch.Storage.Invariant.Slots.{Apart}
use lunefetch.Storage.Invariant.Operations.{IsValid}

pub data QueueCall : Type 0 where
  enqueues marks : ℕ → QueueCall
  serves : QueueCall

-- A queue of keys: what NextInQueue is to answer, and the queue afterwards.
unfoldable pub run_fifo : (ℕ → Bool) → List (ℕ × QueueCall) → List ℕ → List (Option ℕ) × List ℕ
run_fifo known [] q = ([], q)
run_fifo known ((now, enqueues id) ∷ cs) q = run_fifo known cs (put_last id (known id) q)
run_fifo known ((now, marks id) ∷ cs) q = run_fifo known cs (without id q)
run_fifo known ((now, serves) ∷ cs) q = let (os, r) = run_fifo known cs q in (head q ∷ os, r)

abbrev pub key_of : Result (Option DownloadRecord) → Result (Option ℕ)
key_of (ok o) = ok (Option.map (λ r. r.id) o)
key_of (err e) = err e

unfoldable pub run_calls : List (ℕ × QueueCall) → Conn → List (Result (Option ℕ)) × Conn
run_calls [] c = ([], c)
run_calls ((now, enqueues id) ∷ cs) c = run_calls cs (enqueue_download id now c).1
run_calls ((now, marks id) ∷ cs) c = run_calls cs (mark_downloading id now c).1
run_calls ((now, serves) ∷ cs) c =
    let (r, c') = next_in_queue c in let (rs, d) = run_calls cs c' in (key_of r ∷ rs, d)

-- Each row that waits has a position, and the keys differ.
record IsLine (known : ℕ → Bool) (db : Db) : Type 0 where
  all_placed : All IsPlaced db.downloads
  different : Pairwise AreDifferent db.downloads
  same : (id : ℕ) → is_known id db ≡ known id

module _ (known : ℕ → Bool) where
  update-IsLine :
      (p : DownloadRecord → Bool) (f : DownloadRecord → DownloadRecord) (db : Db)
      → ((r : DownloadRecord) → (f r).id ≡ r.id)
      → ((r : DownloadRecord) → is_live (f r) ≡ is_live r)
      → ((r : DownloadRecord) → IsPlaced r → IsPlaced (if p r then f r else r))
      → IsLine known db
      → IsLine known (record db { downloads = update_where p f db.downloads })
  update-IsLine p f db ids live placed v = record {
    all_placed = All-update_where IsPlaced IsPlaced p f db.downloads placed v.all_placed;
    different =
        Pairwise-update_where IsPlaced AreDifferent AreDifferent p f db.downloads
          (λ r s _ _ d. ground (arith, ids r, ids s, d)) v.all_placed v.different;
    same = λ id.
        is_some-first-update_where (λ r. has_id id r && is_live r) p f db.downloads
          (λ r. ground (arith, ids r, live r))
        ∙ v.same id;
  }

  enqueue_rows-IsLine :
      (id now : ℕ) (db : Db) → IsLine known db → IsLine known (enqueue_rows id now db)
  unfolding enqueue_rows
  enqueue_rows-IsLine id now db v =
      update-IsLine _ _ db (λ r. refl) (λ r. refl) (λ r h q. ground (arith, h)) v

  mark_rows-IsLine : (id now : ℕ) (db : Db) → IsLine known db → IsLine known (mark_rows id now db)
  unfolding mark_rows update_download
  mark_rows-IsLine id now db v =
      update-IsLine _ _ db (λ r. refl) (λ r. refl) (λ r h q. ground (arith, h)) v

  abbrev Refines : List (ℕ × QueueCall) → Db → List ℕ → Type 0
  Refines cs db q =
      ((run_calls cs (quiet db)).0 ≡ map (λ o. ok o) (run_fifo known cs q).0)
      × (waiting (run_calls cs (quiet db)).1.db ≡ (run_fifo known cs q).1)

  run_calls_lem :
      (cs : List (ℕ × QueueCall)) (db : Db) → IsLine known db → Refines cs db (waiting db)
  unfolding run_calls run_fifo enqueue_download mark_downloading next_in_queue exec query
  run_calls_lem [] db v = (refl, refl)
  run_calls_lem ((now, enqueues id) ∷ cs) db v =
      subst (Refines cs (enqueue_rows id now db))
        (enqueue_rows-waiting id now db v.all_placed v.different
          ∙ ap (λ b. put_last id b (waiting db)) (v.same id))
        (run_calls_lem cs (enqueue_rows id now db) (enqueue_rows-IsLine id now db v))
  run_calls_lem ((now, marks id) ∷ cs) db v =
      subst (Refines cs (mark_rows id now db)) (mark_rows-waiting id now db)
        (run_calls_lem cs (mark_rows id now db) (mark_rows-IsLine id now db v))
  run_calls_lem ((now, serves) ∷ cs) db v =
      let (answers, rest) = run_calls_lem cs db v in
      (
        ap (λ (o : Option ℕ). ok o ∷ (run_calls cs (quiet db)).0) (head-waiting db)
            ∙ ap (λ (l : List (Result (Option ℕ))). ok (head (waiting db)) ∷ l) answers,
        rest,
      )

Apart-AreDifferent : (rs : List DownloadRecord) → Pairwise Apart rs → Pairwise AreDifferent rs
Apart-AreDifferent [] h = tt
Apart-AreDifferent (r ∷ rs) (h, hs) =
    (All-map (Apart r) (AreDifferent r) rs (λ s a. a.0) h, Apart-AreDifferent rs hs)

-- With no database error, for valid tables in which each waiting row has a position: over any series of
-- calls of EnqueueDownload, MarkDownloading and NextInQueue the answers are those of a first-in, first-out
-- queue of keys. EnqueueDownload puts a key of a download that is not deleted at the end, whether or not it
-- waited before, MarkDownloading takes a key out, and NextInQueue answers the first one.
pub run_calls-run_fifo :
    (cs : List (ℕ × QueueCall)) (db : Db)
    → IsValid db
    → All IsPlaced db.downloads
    → let fifo = run_fifo (λ id. is_known id db) cs (waiting db) in
      ((run_calls cs (quiet db)).0 ≡ map (λ o. ok o) fifo.0)
      × (waiting (run_calls cs (quiet db)).1.db ≡ fifo.1)
run_calls-run_fifo cs db v placed =
    run_calls_lem (λ id. is_known id db) cs db
      (record {
        all_placed = placed;
        different = Apart-AreDifferent db.downloads v.slots.apart;
        same = λ id. refl;
      })
