-- ===== src/Storage/Queue/Enqueued.antt =====
-- EnqueueDownload of internal/storage/state.go puts a download behind all that wait.
use lunefetch.Base.{
  ℕ, ◌+◌, ◌≡◌, refl, ap, ◌∙◌, if◌then◌else◌, List, [], ◌∷◌, ◌++◌, Option, none, some, Bool, true,
  false, ◌&&◌, not, All, All-map, All-zip, Pairwise, arith, Bool-cases, inl, inr,
}
use lunefetch.Storage.Record.{Status, DownloadRecord, Db, is_some}
use lunefetch.Storage.Sql.{select, first, update_where, insert_by, order_by}
use lunefetch.Storage.Downloads.{is_live, has_id}
use lunefetch.Storage.Ordering.{order_by-All, insert_by-last, insert_by-append_one}
use lunefetch.Storage.Queue.{is_queued, key_leb, queue_leb, max_position, enqueue_rows}
use lunefetch.Storage.Queue.Next.{ids_of}
use lunefetch.Storage.Invariant.Slots.{slot, SlotLe, SlotLe-max_position}
use lunefetch.Storage.Queue.Waiting.{
  waiting_rows, waiting, without, IsPlaced, AreDifferent, others_lem,
}

-- A position is below that of a row that is enqueued now.
before_new :
    (o : Option ℕ) (c m d : ℕ)
    → is_some o ≡ true
    → SlotLe m o
    → (key_leb o c (some (m + 1)) d ≡ true) × (key_leb (some (m + 1)) d o c ≡ false)
before_new none c m d h le = cc
before_new (some p) c m d h le = (ground arith, ground arith)

abbrev pub IsBehind : ℕ → DownloadRecord → Type 0
IsBehind m r = IsPlaced r × SlotLe m (slot r)

module _ (id now m : ℕ) where
  abbrev enqueued : DownloadRecord → DownloadRecord
  enqueued r = record r { status = Status.queued; queue_position = some (m + 1); updated_at = now }

  abbrev is_chosen : DownloadRecord → Bool
  is_chosen r = has_id id r && is_live r

  behind-queue_leb :
      (r s : DownloadRecord)
      → is_queued r ≡ true
      → IsBehind m r
      → (queue_leb r (enqueued s) ≡ true) × (queue_leb (enqueued s) r ≡ false)
  behind-queue_leb r s q (placed, le) =
      before_new r.queue_position r.created_at m s.created_at (placed q) (rw q at le)

  behind-all :
      (s : DownloadRecord) (rs : List DownloadRecord)
      → All (IsBehind m) rs
      → All (λ r. queue_leb (enqueued s) r ≡ false) (select is_queued rs)
  unfolding select
  behind-all s [] h = tt
  behind-all s (r ∷ rs) (h, hs) = elim (Bool-cases (is_queued r)) [
    | inl q ↦ rw q ((behind-queue_leb r s q h).1, behind-all s rs hs)
    | inr q ↦ rw q (behind-all s rs hs)
  ]

  select-others :
      (rs : List DownloadRecord)
      → All (λ s. has_id id s ≡ false) rs
      → select (λ r. is_queued r && not (has_id id r)) rs ≡ select is_queued rs
  unfolding select
  select-others [] h = refl
  select-others (r ∷ rs) (h, hs) = ground (arith, h, select-others rs hs)

  abbrev Enqueues : List DownloadRecord → Option DownloadRecord → Type 0
  Enqueues rs none = waiting_rows (update_where is_chosen enqueued rs) ≡ waiting_rows rs
  Enqueues rs (some s) =
      waiting_rows (update_where is_chosen enqueued rs)
      ≡ order_by queue_leb (select (λ r. is_queued r && not (has_id id r)) rs) ++ enqueued s ∷ []

  Enqueues-other :
      (r : DownloadRecord) (rs : List DownloadRecord) (o : Option DownloadRecord)
      → is_chosen r ≡ false
      → IsBehind m r
      → Enqueues rs o
      → Enqueues (r ∷ rs) o
  unfolding select update_where order_by
  Enqueues-other r rs none other h e = elim (Bool-cases (is_queued r)) [
    | inl q ↦ rw (other, q) (ap (insert_by queue_leb r) e)
    | inr q ↦ rw (other, q) e
  ]
  Enqueues-other r rs (some s) other h e = elim (Bool-cases (is_queued r)) [
    | inl q ↦
        let apart : has_id id r ≡ false = ground arith in
        rw (other, q, apart)
          (ap (insert_by queue_leb r) e
            ∙ insert_by-append_one queue_leb r (enqueued s) _ (behind-queue_leb r s q h).0)
    | inr q ↦ rw (other, q) e
  ]

  update-others :
      (rs : List DownloadRecord)
      → All (λ s. has_id id s ≡ false) rs
      → update_where is_chosen enqueued rs ≡ rs
  unfolding update_where
  update-others [] h = refl
  update-others (r ∷ rs) (h, hs) = ground (arith, h, update-others rs hs)

  Enqueues-chosen :
      (r : DownloadRecord) (rs : List DownloadRecord)
      → is_chosen r ≡ true
      → All (λ s. has_id id s ≡ false) rs
      → All (IsBehind m) rs
      → Enqueues (r ∷ rs) (some r)
  unfolding select update_where order_by
  Enqueues-chosen r rs chosen apart h =
      let live : is_live r ≡ true = ground arith in
      let passed : (is_queued r && not (has_id id r)) ≡ false = ground arith in
      rw (chosen, passed, live, update-others rs apart, select-others rs apart)
        (insert_by-last queue_leb (enqueued r) (waiting_rows rs) (
          order_by-All queue_leb (λ s. queue_leb (enqueued r) s ≡ false) (select is_queued rs)
            (behind-all r rs h)))

  Enqueues_lem :
      (rs : List DownloadRecord)
      → All (IsBehind m) rs
      → Pairwise AreDifferent rs
      → Enqueues rs (first is_chosen rs)
  unfolding first select update_where order_by
  Enqueues_lem [] h w = refl
  Enqueues_lem (r ∷ rs) (h, hs) (w, ws) = elim (Bool-cases (is_chosen r)) [
    | inr other ↦
        rw other (Enqueues-other r rs (first is_chosen rs) other h (Enqueues_lem rs hs ws))
    | inl chosen ↦ rw chosen (
        Enqueues-chosen r rs chosen (All-map (AreDifferent r) _ rs (λ s d. ground (arith, d)) w) hs)
  ]

-- A download that is not deleted goes to the end.
abbrev pub put_last : ℕ → Bool → List ℕ → List ℕ
put_last id b xs = if b then without id xs ++ id ∷ [] else xs

abbrev pub is_known : ℕ → Db → Bool
is_known id db = is_some (first (λ r. has_id id r && is_live r) db.downloads)

first-passes :
    (p : DownloadRecord → Bool) (rs : List DownloadRecord) (s : DownloadRecord)
    → first p rs ≡ some s
    → p s ≡ true
unfolding first
first-passes p [] s e = cc
first-passes p (r ∷ rs) s e = elim (Bool-cases (p r)) [
  | inl found ↦ cc (rw found at e)
  | inr other ↦ first-passes p rs s (rw other at e)
]

ids-append_one :
    (rs : List DownloadRecord) (s : DownloadRecord) → ids_of (rs ++ s ∷ []) ≡ ids_of rs ++ s.id ∷ []
ids-append_one [] s = refl
ids-append_one (r ∷ rs) s = ap (λ l. r.id ∷ l) (ids-append_one rs s)

Enqueues-put_last :
    (id now m : ℕ) (rs : List DownloadRecord) (o : Option DownloadRecord)
    → first (λ r. has_id id r && is_live r) rs ≡ o
    → Enqueues id now m rs o
    → ids_of (waiting_rows (update_where (is_chosen id now m) (enqueued id now m) rs))
      ≡ put_last id (is_some o) (ids_of (waiting_rows rs))
Enqueues-put_last id now m rs none e q = ap ids_of q
Enqueues-put_last id now m rs (some s) e q =
    let same : s.id ≡ id = ground (arith, first-passes (is_chosen id now m) rs s e) in
    ap ids_of q
    ∙ ids-append_one _ (enqueued id now m s)
    ∙ ap (λ (l : List ℕ). l ++ s.id ∷ []) (others_lem id rs)
    ∙ ap (λ (n : ℕ). without id (ids_of (waiting_rows rs)) ++ n ∷ []) same

pub enqueue_rows-waiting :
    (id now : ℕ) (db : Db)
    → All IsPlaced db.downloads
    → Pairwise AreDifferent db.downloads
    → waiting (enqueue_rows id now db) ≡ put_last id (is_known id db) (waiting db)
unfolding enqueue_rows
enqueue_rows-waiting id now db placed different =
    let m : ℕ = max_position db.downloads in
    Enqueues-put_last id now m db.downloads _ refl (
      Enqueues_lem id now m db.downloads
        (All-zip IsPlaced (λ r. SlotLe m (slot r)) (IsBehind m) db.downloads (λ r a b. (a, b))
          placed (SlotLe-max_position db.downloads))
        different)
