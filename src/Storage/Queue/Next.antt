-- ===== src/Storage/Queue/Next.antt =====
-- NextInQueue: the row that is served next.
use lunefetch.Base.{
  ℕ, ◌≡◌, refl, sym, ap, subst, ◌∙◌, List, [], ◌∷◌, map, Option, none, some, true, false, ◌⊎◌, inl,
  inr, All, All-map, arith, Bool-cases, contains, ==_refl,
}
use mathlib.Core.Option.{some-injective}
use lunefetch.Storage.Record.{DownloadRecord}
use lunefetch.Storage.Sql.{Conn, ok, query, is_faulty}
use lunefetch.Storage.Queue.{next_in_queue, is_queued, key_leb, queue_leb, earlier, next_row}

pub key_leb-total :
    (p : Option ℕ) (c : ℕ) (q : Option ℕ) (d : ℕ) → key_leb p c q d ≡ false → key_leb q d p c ≡ true
key_leb-total none c none d h = ground arith
key_leb-total none c (some q) d h = refl
key_leb-total (some p) c none d h = cc
key_leb-total (some p) c (some q) d h = ground arith

pub key_leb_trans :
    (p : Option ℕ) (c : ℕ) (q : Option ℕ) (d : ℕ) (r : Option ℕ) (e : ℕ)
    → key_leb p c q d ≡ true
    → key_leb q d r e ≡ true
    → key_leb p c r e ≡ true
key_leb_trans none c none d none e h k = ground arith
key_leb_trans none c none d (some r) e h k = cc
key_leb_trans none c (some q) d r e h k = cc
key_leb_trans (some p) c none d none e h k = refl
key_leb_trans (some p) c none d (some r) e h k = cc
key_leb_trans (some p) c (some q) d none e h k = refl
key_leb_trans (some p) c (some q) d (some r) e h k = ground arith

-- `r` is served before every row that waits.
abbrev pub IsNext : DownloadRecord → List DownloadRecord → Type 0
IsNext r rs = All (λ s. is_queued s ≡ true → queue_leb r s ≡ true) rs

key_leb_refl : (p : Option ℕ) (c : ℕ) → key_leb p c p c ≡ true
key_leb_refl none c = ground arith
key_leb_refl (some p) c = ground arith

abbrev pub ids_of : List DownloadRecord → List ℕ
ids_of = map (λ r. r.id)

-- What is found among the later rows, against the first one.
earlier_lem :
    (x : DownloadRecord) (o : Option DownloadRecord) (r : DownloadRecord)
    → earlier x o ≡ some r
    → ((r ≡ x) × ((s : DownloadRecord) → o ≡ some s → queue_leb x s ≡ true))
      ⊎ ((o ≡ some r) × (queue_leb r x ≡ true))
earlier_lem x none r e = inl (sym (some-injective _ _ e), λ s h. cc)
earlier_lem x (some s) r e = elim (Bool-cases (queue_leb x s)) [
  | inl le ↦ inl (
    sym (some-injective _ _ (rw le at e)),
    λ t h. subst (λ u. queue_leb x u ≡ true) (some-injective _ _ h) le,
  )
  | inr gt ↦
      let same : s ≡ r = some-injective _ _ (rw gt at e) in
      inr (
        ap some same,
        subst (λ u. queue_leb u x ≡ true) same
            (key_leb-total x.queue_position x.created_at s.queue_position s.created_at gt),
      )
]

earlier-some : (x : DownloadRecord) (o : Option DownloadRecord) → earlier x o ≡ none → ⊥
earlier-some x none e = cc
earlier-some x (some s) e = elim (Bool-cases (queue_leb x s)) [
  | inl le ↦ cc (rw le at e)
  | inr gt ↦ cc (rw gt at e)
]

-- Nothing is found only where nothing waits.
pub next_row-none :
    (rs : List DownloadRecord) → next_row rs ≡ none → All (λ s. is_queued s ≡ false) rs
unfolding next_row
next_row-none [] e = tt
next_row-none (x ∷ rs) e = elim (Bool-cases (is_queued x)) [
  | inl q ↦ absurd (earlier-some x (next_row rs) (rw (q, next_row) at e))
  | inr q ↦ (q, next_row-none rs (rw (q, next_row) at e))
]

IsNext-trans :
    (r x : DownloadRecord) (rs : List DownloadRecord)
    → queue_leb x r ≡ true
    → IsNext r rs
    → IsNext x rs
IsNext-trans r x rs le n =
    All-map (λ s. is_queued s ≡ true → queue_leb r s ≡ true) _ rs
      (λ s h q.
        key_leb_trans x.queue_position x.created_at r.queue_position r.created_at s.queue_position
          s.created_at le (h q))
      n

-- The row that is found waits, is in the table, and no waiting row comes before it.
pub next_row_lem :
    (rs : List DownloadRecord) (r : DownloadRecord)
    → next_row rs ≡ some r
    → (is_queued r ≡ true) × (contains (ids_of rs) r.id ≡ true) × IsNext r rs
unfolding next_row contains
next_row_lem [] r e = cc
next_row_lem (x ∷ rs) r e = elim (Bool-cases (is_queued x)) [
  | inr idle ↦
      let (q, mem, least) = next_row_lem rs r (rw (idle, next_row) at e) in
      (q, ground arith, ((λ w. cc (sym idle ∙ w)), least))
  | inl waits ↦ elim (earlier_lem x (next_row rs) r (rw (waits, next_row) at e)) [
    | inr (found, le) ↦
        let (q, mem, least) = next_row_lem rs r found in (q, ground arith, ((λ _. le), least))
    | inl (same, front) ↦
        subst
          (λ u. (is_queued u ≡ true) × (contains (ids_of (x ∷ rs)) u.id ≡ true) × IsNext u (x ∷ rs))
          (sym same)
          (
            waits,
            rw (==_refl x.id),
            (
              (λ _. key_leb_refl x.queue_position x.created_at),
              behind (next_row rs) refl front (λ s h. (next_row_lem rs s h).2),
            ),
          )
  ]
]
  where
    behind :
        (o : Option DownloadRecord)
        → next_row rs ≡ o
        → ((s : DownloadRecord) → o ≡ some s → queue_leb x s ≡ true)
        → ((s : DownloadRecord) → next_row rs ≡ some s → IsNext s rs)
        → IsNext x rs
    behind none e front least =
        All-map (λ s. is_queued s ≡ false) _ rs (λ s idle q. cc (sym idle ∙ q)) (next_row-none rs e)
    behind (some s) e front least = IsNext-trans s x rs (front s refl) (least s e)

-- What an answer of NextInQueue says of the table.
abbrev pub Serves : List DownloadRecord → Option DownloadRecord → Type 0
Serves rs none = All (λ s. is_queued s ≡ false) rs
Serves rs (some r) = (is_queued r ≡ true) × (contains (ids_of rs) r.id ≡ true) × IsNext r rs

next_row-Serves :
    (rs : List DownloadRecord) (o : Option DownloadRecord) → next_row rs ≡ o → Serves rs o
next_row-Serves rs none e = next_row-none rs e
next_row-Serves rs (some r) e = next_row_lem rs r e

pub next_in_queue-Serves :
    (c : Conn) (o : Option DownloadRecord) → (next_in_queue c).0 ≡ ok o → Serves c.db.downloads o
unfolding next_in_queue query
next_in_queue-Serves c o h = elim (Bool-cases (is_faulty c.faults)) [
  | inl bad ↦ cc (rw (bad, query) at h)
  | inr good ↦
      let found : ok (next_row c.db.downloads) ≡ ok o = rw (good, query) at h in
      next_row-Serves c.db.downloads o cc
]

pub next_in_queue-db : (c : Conn) → (next_in_queue c).1.db ≡ c.db
unfolding next_in_queue query
next_in_queue-db c = ground arith

-- With no fault to come the answer is there, and no fault comes.
pub next_in_queue_fine :
    (c : Conn)
    → c.faults ≡ []
    → ((next_in_queue c).0 ≡ ok (next_row c.db.downloads)) × ((next_in_queue c).1.faults ≡ [])
unfolding next_in_queue query
next_in_queue_fine c h = ground arith

-- What holds of every row holds of the one that is found.
pub next_row-All {ℓ} :
    (P : DownloadRecord → Type ℓ) (rs : List DownloadRecord) (r : DownloadRecord)
    → next_row rs ≡ some r
    → All P rs
    → P r
unfolding next_row
next_row-All P [] r e a = cc
next_row-All P (x ∷ rs) r e a = elim (Bool-cases (is_queued x)) [
  | inr idle ↦ next_row-All P rs r (rw (idle, next_row) at e) a.1
  | inl waits ↦ elim (earlier_lem x (next_row rs) r (rw (waits, next_row) at e)) [
    | inr (found, le) ↦ next_row-All P rs r found a.1
    | inl (same, front) ↦ subst P (sym same) a.0
  ]
]
