-- ===== src/Storage/Invariant/Renumber.antt =====
-- ShiftQueuePositions: the loop as one function on rows, and what it does to the waiting rows.
use lunefetch.Base.{
  ℕ, ◌+◌, ◌≤◌, ◌==◌, ◌≡◌, ◌≢◌, refl, ap, sym, subst, ◌∙◌, if◌then◌else◌, List, [], ◌∷◌, map, Option,
  none, some, Bool, true, false, All, All-map, arith, Bool-cases, inl, inr, contains, ==_refl,
}
use lunefetch.Storage.Record.{DownloadRecord, Db}
use lunefetch.Storage.Sql.{
  Conn, ok, exec, query, update_where, select, insert_by, order_by, is_faulty, elapse, transaction,
}
use lunefetch.Storage.Rows.{All-update_where, Pairwise-update_where}
use lunefetch.Storage.Keeps.{Keeps, transaction-end}
use lunefetch.Storage.Downloads.{has_id, update_download}
use lunefetch.Storage.Queue.{is_queued, shift_leb, renumber, queue_ids, shift_queue_positions}
use lunefetch.Storage.Invariant.Slots.{clash, Apart, IsBelow, HasSlots}

-- The position that the loop leaves to a key: that of its last occurrence.
pub spot : List ℕ → ℕ → ℕ → Option ℕ → Option ℕ
spot [] i x old = old
spot (y ∷ ys) i x old = spot ys (i + 1) x (if y == x then some (i + 1) else old)

abbrev respot : List ℕ → ℕ → DownloadRecord → DownloadRecord
respot ids i r = record r { queue_position = spot ids i r.id r.queue_position }

renumber_rows : List ℕ → ℕ → List DownloadRecord → List DownloadRecord
renumber_rows ids i rs = update_where (λ _. true) (respot ids i) rs

place-renumber :
    (y : ℕ) (ys : List ℕ) (i : ℕ) (rs : List DownloadRecord)
    → renumber_rows ys
        (i + 1)
        (update_where (has_id y) (λ r. record r { queue_position = some (i + 1) }) rs)
      ≡ renumber_rows (y ∷ ys) i rs
unfolding renumber_rows spot update_where
place-renumber y ys i [] = refl
place-renumber y ys i (r ∷ rs) = ground (arith, place-renumber y ys i rs)

renumber_rows-nil : (i : ℕ) (rs : List DownloadRecord) → renumber_rows [] i rs ≡ rs
unfolding renumber_rows spot update_where
renumber_rows-nil i [] = refl
renumber_rows-nil i (r ∷ rs) = ap (◌∷◌ r) (renumber_rows-nil i rs)

-- A loop that succeeds has renumbered the rows.
renumber-rows :
    (ids : List ℕ) (i : ℕ) (c : Conn)
    → (renumber ids i c).0 ≡ ok tt
    → (renumber ids i c).1.db ≡ record (c.db) { downloads = renumber_rows ids i c.db.downloads }
unfolding renumber exec update_download
renumber-rows [] i c h = rw (renumber_rows-nil i c.db.downloads)
renumber-rows (y ∷ ys) i c h = elim (Bool-cases (is_faulty c.faults)) [
  | inl bad ↦ cc (rw (bad, exec) at h)
  | inr good ↦
      rw (good, exec)
        (renumber-rows ys (i + 1) _ (rw (good, exec) at h)
          ∙ ap (λ rs. record (c.db) { downloads = rs }) (place-renumber y ys i c.db.downloads))
]

abbrev Placed : ℕ → Option ℕ → Type 0
Placed i none = ⊥
Placed i (some k) = k ≤ i

Placed-clash :
    (i : ℕ) (o : Option ℕ)
    → Placed i o
    → (clash (some (i + 1)) o ≡ false) × (clash o (some (i + 1)) ≡ false)
Placed-clash i none h = absurd h
Placed-clash i (some k) h = (ground arith, ground arith)

Placed-mono : (i : ℕ) (o : Option ℕ) → Placed i o → Placed (i + 1) o
Placed-mono i none h = h
Placed-mono i (some k) h = omega arith

-- Two keys that both occur are left with different positions.
spot-apart :
    (ids : List ℕ) (i x y : ℕ) (o q : Option ℕ)
    → x ≢ y
    → (contains ids x ≡ false → Placed i o)
    → (contains ids y ≡ false → Placed i q)
    → (contains ids x ≡ false → contains ids y ≡ false → clash o q ≡ false)
    → clash (spot ids i x o) (spot ids i y q) ≡ false
unfolding spot contains
spot-apart [] i x y o q ne ho hq apart = apart refl refl
spot-apart (w ∷ ws) i x y o q ne ho hq apart = elim (Bool-cases (w == x)) [
  | inl wx ↦
      let ny : (w == y) ≡ false = ground arith in
      let hq' : contains ws y ≡ false → Placed i q = λ c. hq (rw ny c) in
      rw (wx, ny)
        (spot-apart ws (i + 1) x y (some (i + 1)) q ne (λ _. omega arith)
          (λ c. Placed-mono i q (hq' c)) (λ _ c. (Placed-clash i q (hq' c)).0))
  | inr nx ↦
      let ho' : contains ws x ≡ false → Placed i o = λ c. ho (rw nx c) in
      elim (Bool-cases (w == y)) [
        | inl wy ↦
            rw (nx, wy)
              (spot-apart ws (i + 1) x y o (some (i + 1)) ne (λ c. Placed-mono i o (ho' c))
                (λ _. omega arith) (λ c _. (Placed-clash i o (ho' c)).1))
        | inr ny ↦
            rw (nx, ny)
              (spot-apart ws (i + 1) x y o q ne (λ c. Placed-mono i o (ho' c))
                (λ c. Placed-mono i q (hq (rw ny c))) (λ c d. apart (rw nx c) (rw ny d)))
      ]
]

abbrev ids_of : List DownloadRecord → List ℕ
ids_of = map (λ r. r.id)

contains-insert_by :
    (le : DownloadRecord → DownloadRecord → Bool) (r : DownloadRecord) (rs : List DownloadRecord)
    (x : ℕ)
    → contains (ids_of (insert_by le r rs)) x ≡ contains (ids_of (r ∷ rs)) x
unfolding insert_by contains
contains-insert_by le r [] x = refl
contains-insert_by le r (s ∷ ss) x = elim (Bool-cases (le r s)) [
  | inl e ↦ rw (e, insert_by)
  | inr e ↦ rw (e, insert_by) (ground (arith, contains-insert_by le r ss x))
]

contains-order_by :
    (le : DownloadRecord → DownloadRecord → Bool) (rs : List DownloadRecord) (x : ℕ)
    → contains (ids_of (order_by le rs)) x ≡ contains (ids_of rs) x
unfolding order_by contains
contains-order_by le [] x = refl
contains-order_by le (r ∷ rs) x =
    contains-insert_by le r (order_by le rs) x
    ∙ ap (λ b. if r.id == x then true else b) (contains-order_by le rs x)

contains-select_head :
    (r : DownloadRecord) (rs : List DownloadRecord)
    → is_queued r ≡ true
    → contains (ids_of (select is_queued (r ∷ rs))) r.id ≡ true
unfolding select contains
contains-select_head r rs e = rw (e, select) (rw (==_refl r.id))

contains-select_tail :
    (r : DownloadRecord) (rs : List DownloadRecord) (x : ℕ)
    → contains (ids_of (select is_queued rs)) x ≡ true
    → contains (ids_of (select is_queued (r ∷ rs))) x ≡ true
unfolding select contains
contains-select_tail r rs x h = elim (Bool-cases (is_queued r)) [
  | inl e ↦ rw (e, select) (ground arith)
  | inr e ↦ rw (e, select) h
]

contains-selected :
    (rs : List DownloadRecord)
    → All (λ r. is_queued r ≡ true → contains (ids_of (select is_queued rs)) r.id ≡ true) rs
contains-selected [] = tt
contains-selected (r ∷ rs) = (
  contains-select_head r rs,
  All-map (λ s. is_queued s ≡ true → contains (ids_of (select is_queued rs)) s.id ≡ true) _ rs
      (λ s h q. contains-select_tail r rs s.id (h q)) (contains-selected rs),
)

-- The loop is given every waiting row.
contains-queue_ids :
    (db : Db) → All (λ r. is_queued r ≡ true → contains (queue_ids db) r.id ≡ true) db.downloads
unfolding queue_ids
contains-queue_ids db =
    All-map
      (λ r. is_queued r ≡ true → contains (ids_of (select is_queued db.downloads)) r.id ≡ true) _
      db.downloads (λ r h q. contains-order_by shift_leb (select is_queued db.downloads) r.id ∙ h q)
      (contains-selected db.downloads)

clash-none : (o : Option ℕ) → clash o none ≡ false
clash-none none = refl
clash-none (some p) = refl

-- A waiting row gets its slot from the loop, and no other row has one.
respot-Apart :
    (ids : List ℕ) (r s : DownloadRecord)
    → (is_queued r ≡ true → contains ids r.id ≡ true)
    → (is_queued s ≡ true → contains ids s.id ≡ true)
    → Apart r s
    → Apart (respot ids 0 r) (respot ids 0 s)
respot-Apart ids r s hr hs (ne, _) = (
  ne,
  elim (Bool-cases (is_queued r)) [
    | inl qr ↦ elim (Bool-cases (is_queued s)) [
      | inl qs ↦
          rw (qr, qs)
            (spot-apart ids 0 r.id s.id r.queue_position s.queue_position ne
              (λ c. cc (sym (hr qr) ∙ c)) (λ c. cc (sym (hs qs) ∙ c)) (λ c _. cc (sym (hr qr) ∙ c)))
      | inr qs ↦ rw qs (clash-none _)
    ]
    | inr qr ↦ rw qr
  ],
)

renumber_rows-HasSlots :
    (ids : List ℕ) (db : Db)
    → All (λ r. is_queued r ≡ true → contains ids r.id ≡ true) db.downloads
    → HasSlots db
    → HasSlots (record db { downloads = renumber_rows ids 0 db.downloads })
unfolding renumber_rows
renumber_rows-HasSlots ids db listed v = record {
  apart =
      Pairwise-update_where (λ r. is_queued r ≡ true → contains ids r.id ≡ true) Apart Apart
        (λ _. true) (respot ids 0) db.downloads (respot-Apart ids) listed v.apart;
  below =
      All-update_where (IsBelow db.next_download_id) (IsBelow db.next_download_id) (λ _. true)
        (respot ids 0) db.downloads (λ r b. b) v.below;
}

transaction-renumber :
    (ids : List ℕ) (c : Conn)
    → All (λ r. is_queued r ≡ true → contains ids r.id ≡ true) c.db.downloads
    → HasSlots c.db
    → HasSlots (transaction (renumber ids 0) c).1.db
transaction-renumber ids c listed v = transaction-end HasSlots (renumber ids 0) c v (λ _ e.
    subst HasSlots (sym (renumber-rows ids 0 (elapse c) e))
      (renumber_rows-HasSlots ids c.db listed v))

-- Compacting the queue keeps the slots apart, whichever statements fail.
pub shift_queue_positions-HasSlots : Keeps HasSlots shift_queue_positions
unfolding shift_queue_positions query
shift_queue_positions-HasSlots c v = elim (Bool-cases (is_faulty c.faults)) [
  | inl bad ↦ rw (bad, query) v
  | inr good ↦
      rw (good, query)
        (transaction-renumber (queue_ids c.db) (elapse c) (contains-queue_ids c.db) v)
]
