-- ===== src/Storage/Invariant/Swap.antt =====
-- MoveQueuePosition: the swap of two positions.
use lunefetch.Base.{
  ℕ, zero, suc, ◌==◌, ◌≡◌, ◌≢◌, ◌⊎◌, refl, ap, sym, subst, ◌∙◌, if◌then◌else◌, List, [], ◌∷◌,
  Option, none, some, true, false, ◌&&◌, not, All, Pairwise, All-map, arith, Bool-cases, inl, inr,
  length,
}
use lunefetch.Base.Int64.{ℤ, pos, negsuc}
use lunefetch.Storage.Record.{DownloadRecord, Db}
use lunefetch.Storage.Sql.{Conn, pure, ◌>>=◌, ◌>>◌, exec, query, select, first, is_faulty, elapse}
use lunefetch.Storage.Rows.{All-update_where, Pairwise-update_where, update_where-twice, first-All}
use lunefetch.Storage.Keeps.{Keeps, pure-Keeps, >>=-Keeps, transaction-end, exec-exec}
use lunefetch.Storage.Downloads.{has_id, update_download}
use lunefetch.Storage.Queue.{
  is_queued, place, vacate, stands_at, swap_positions, move_from, move_queue_position, move_target,
  shift_queue_positions, queued_position,
}
use lunefetch.Storage.Invariant.Slots.{slot, clash, Apart, IsBelow, HasSlots}
use lunefetch.Storage.Invariant.Renumber.{shift_queue_positions-HasSlots}

-- The row with the key waits at `p`, and no other row does.
abbrev Owns : ℕ → ℕ → DownloadRecord → Type 0
Owns id p s = ((s.id ≡ id) × (slot s ≡ some p)) ⊎ ((s.id ≢ id) × (clash (some p) (slot s) ≡ false))

clash_comm : (o q : Option ℕ) → clash o q ≡ clash q o
clash_comm none none = refl
clash_comm none (some b) = refl
clash_comm (some a) none = refl
clash_comm (some a) (some b) = ground arith

slot-queued :
    (id p : ℕ) (r : DownloadRecord)
    → (has_id id r && is_queued r) ≡ true
    → r.queue_position ≡ some p
    → (r.id ≡ id) × (slot r ≡ some p)
slot-queued id p r t at = (ground arith, ground arith)

Owns-Apart :
    (id p : ℕ) (r s : DownloadRecord) → (r.id ≡ id) × (slot r ≡ some p) → Apart r s → Owns id p s
Owns-Apart id p r s (ir, sr) (ne, free) = inr (λ e. ne (ir ∙ sym e), rw (← sr) free)

found-Owns :
    (id p : ℕ) (rs : List DownloadRecord) (r : DownloadRecord)
    → first (λ s. has_id id s && is_queued s) rs ≡ some r
    → r.queue_position ≡ some p
    → Pairwise Apart rs
    → All (Owns id p) rs
unfolding first
found-Owns id p [] r e at w = tt
found-Owns id p (s ∷ rs) r e at w = elim (Bool-cases (has_id id s && is_queued s)) [
  | inl t ↦
      let same : some s ≡ some r = rw (t, first) at e in
      let found : s ≡ r = cc in
      let mine : (s.id ≡ id) × (slot s ≡ some p) =
        slot-queued id p s t (ap (λ (u : DownloadRecord). u.queue_position) found ∙ at) in
      (inl mine, All-map (Apart s) (Owns id p) rs (λ u a. Owns-Apart id p s u mine a) w.0)
  | inr t ↦
      let later : first (λ u. has_id id u && is_queued u) rs ≡ some r = rw (t, first) at e in
      let (tr, away) = first-All (Apart s) (λ u. has_id id u && is_queued u) rs r later w.0 in
      (
        Owns-Apart id p r s (slot-queued id p r tr at)
            ((λ c. away.0 (sym c)), clash_comm (slot r) (slot s) ∙ away.1),
        found-Owns id p rs r later at w.1,
      )
]

-- What the two updates do to a row.
swapped : ℕ → ℕ → ℕ → DownloadRecord → DownloadRecord
swapped id p q r =
    let r' =
      if stands_at q r.queue_position && not (has_id id r) && is_queued r
      then record r { queue_position = some p }
      else r in
    if has_id id r' then record r' { queue_position = some q } else r'

slot-swapped :
    (id p q : ℕ) (r : DownloadRecord)
    → Owns id p r
    → let s = swapped id p q r in
      (s.id ≡ r.id)
      × (((r.id ≡ id) × (slot s ≡ some q))
          ⊎ ((r.id ≢ id) × (slot r ≡ some q) × (slot s ≡ some p))
          ⊎ ((r.id ≢ id) × (slot s ≡ slot r) × (clash (some q) (slot r) ≡ false)))
unfolding swapped
slot-swapped id p q r o = ground arith

id-swapped : (id p q : ℕ) (r : DownloadRecord) → (swapped id p q r).id ≡ r.id
unfolding swapped
id-swapped id p q r = ground arith

abbrev Swapped : ℕ → ℕ → ℕ → DownloadRecord → Option ℕ → Type 0
Swapped id p q r o =
    ((r.id ≡ id) × (o ≡ some q))
    ⊎ ((r.id ≢ id) × (slot r ≡ some q) × (o ≡ some p))
    ⊎ ((r.id ≢ id) × (o ≡ slot r) × (clash (some q) (slot r) ≡ false))

Swapped-Apart :
    (id p q : ℕ) (r s : DownloadRecord) (o u : Option ℕ)
    → p ≢ q
    → Apart r s
    → Owns id p r
    → Owns id p s
    → Swapped id p q r o
    → Swapped id p q s u
    → clash o u ≡ false
Swapped-Apart id p q r s o u ne a hr hs k l = ground (
  arith,
  clash_comm (slot r) (slot s),
  clash_comm (some p) (slot r),
  clash_comm (some q) (slot r),
)

swap-HasSlots :
    (id p q : ℕ) (db : Db)
    → p ≢ q
    → All (Owns id p) db.downloads
    → HasSlots db
    → HasSlots (place id q (vacate id p q db))
unfolding update_download swapped
swap-HasSlots id p q db ne own v =
    subst (λ rs. HasSlots (record db { downloads = rs }))
      (sym (
        update_where-twice (λ r. stands_at q r.queue_position && not (has_id id r) && is_queued r)
          (has_id id) (λ r. record r { queue_position = some p })
          (λ r. record r { queue_position = some q }) db.downloads))
      (record {
        apart =
            Pairwise-update_where (Owns id p) Apart Apart (λ _. true) (swapped id p q) db.downloads
              (λ r s hr hs a.
                let (ir, kr) = slot-swapped id p q r hr in
                let (is, ks) = slot-swapped id p q s hs in
                (rw (ir, is) a.0, Swapped-Apart id p q r s _ _ ne a hr hs kr ks))
              own v.apart;
        below =
            All-update_where (IsBelow db.next_download_id) (IsBelow db.next_download_id) (λ _. true)
              (swapped id p q) db.downloads (λ r b. rw (id-swapped id p q r) b) v.below;
      })

swap_positions-HasSlots :
    (id p q : ℕ) (c : Conn)
    → p ≢ q
    → All (Owns id p) c.db.downloads
    → HasSlots c.db
    → HasSlots (swap_positions id p q c).1.db
unfolding swap_positions
swap_positions-HasSlots id p q c ne own v =
    transaction-end HasSlots (exec (vacate id p q) >> exec (place id q)) c v (λ _ e.
      subst HasSlots (sym (exec-exec (vacate id p q) (place id q) (elapse c) e))
        (swap-HasSlots id p q c.db ne own v))

move_to-HasSlots :
    (id p q : ℕ) (c : Conn)
    → All (Owns id p) c.db.downloads
    → HasSlots c.db
    → HasSlots ((if q == p then pure tt else swap_positions id p q) c).1.db
move_to-HasSlots id p q c own v = elim (Bool-cases (q == p)) [
  | inl e ↦ rw e v
  | inr e ↦ rw e (swap_positions-HasSlots id p q c (ground arith) own v)
]

move_from-HasSlots :
    (id : ℕ) (delta : ℤ) (o : Option ℕ) (c : Conn)
    → ((p : ℕ) → o ≡ some p → All (Owns id p) c.db.downloads)
    → HasSlots c.db
    → HasSlots (move_from id delta o c).1.db
unfolding move_from query
move_from-HasSlots id delta none c own v = v
move_from-HasSlots id delta (some p) c own v = elim (Bool-cases (is_faulty c.faults)) [
  | inl bad ↦ rw (bad, query) v
  | inr good ↦
      rw (good, query)
        (move_to-HasSlots id p (move_target p delta (length (select is_queued c.db.downloads)))
          (elapse c) (own p refl) v)
]

found-position :
    (id : ℕ) (rs : List DownloadRecord) (o : Option DownloadRecord) (p : ℕ)
    → first (λ s. has_id id s && is_queued s) rs ≡ o
    → queued_position o ≡ some p
    → Pairwise Apart rs
    → All (Owns id p) rs
found-position id rs none p e at w = cc
found-position id rs (some r) p e at w = found-Owns id p rs r e at w

move_found-HasSlots :
    (id : ℕ) (delta : ℤ)
    → Keeps HasSlots (
        query (λ db. first (λ r. has_id id r && is_queued r) db.downloads) >>= λ found.
        move_from id delta (queued_position found))
unfolding query
move_found-HasSlots id delta c v = elim (Bool-cases (is_faulty c.faults)) [
  | inl bad ↦ rw (bad, query) v
  | inr good ↦
      rw (good, query)
        (move_from-HasSlots id delta _ (elapse c)
          (λ p at. found-position id c.db.downloads _ p refl at v.apart) v)
]

-- A move keeps the slots apart, whichever statements fail.
pub move_queue_position-HasSlots :
    (id : ℕ) (delta : ℤ) → Keeps HasSlots (move_queue_position id delta)
unfolding move_queue_position
move_queue_position-HasSlots id (pos zero) = pure-Keeps HasSlots tt
move_queue_position-HasSlots id (pos (suc n)) =
    >>=-Keeps HasSlots shift_queue_positions _ shift_queue_positions-HasSlots
      (λ _. move_found-HasSlots id (pos (suc n)))
move_queue_position-HasSlots id (negsuc n) =
    >>=-Keeps HasSlots shift_queue_positions _ shift_queue_positions-HasSlots
      (λ _. move_found-HasSlots id (negsuc n))
