-- ===== src/Queue/Drain.antt =====
-- The loop of `drainQueue`: it ends by itself, and leaves no free slot while a download waits.
use lunefetch.Base.{
  ℕ, zero, suc, ◌≤◌, ◌<◌, ◌==◌, ◌≡◌, refl, sym, ap, ◌∙◌, subst, if◌then◌else◌, List, [], ◌∷◌,
  Option, none, some, Bool, true, false, length, contains, arith, Bool-cases, Option-cases, inl,
  inr,
}
use mathlib.Core.Option.{some-injective}
use lunefetch.Storage.Record.{DownloadRecord, Db}
use lunefetch.Storage.Sql.{Conn, Result, ok, err, update_where, exec, is_faulty}
use lunefetch.Storage.Downloads.{has_id, update_download}
use lunefetch.Storage.Queue.{next_in_queue, mark_downloading, mark_rows, set_queue_position}
use lunefetch.Storage.Queue.Next.{ids_of, Serves, next_in_queue-Serves, next_in_queue-db}
use lunefetch.Queue.{Manager, has_slot, launch, drawn, drain_one, drain_loop}

abbrev keys : Manager → List ℕ
keys m = ids_of m.state.db.downloads

-- How many keys the loop has not seen.
unseen : List ℕ → List ℕ → ℕ
unseen seen [] = 0
unseen seen (x ∷ xs) = if contains seen x then unseen seen xs else suc (unseen seen xs)

unseen-le : (id : ℕ) (seen xs : List ℕ) → unseen (id ∷ seen) xs ≤ unseen seen xs
unfolding unseen contains
unseen-le id seen [] = omega arith
unseen-le id seen (x ∷ xs) = ground (arith, unseen-le id seen xs)

unseen-lt :
    (id : ℕ) (seen xs : List ℕ)
    → contains xs id ≡ true
    → contains seen id ≡ false
    → unseen (id ∷ seen) xs < unseen seen xs
unfolding unseen contains
unseen-lt id seen [] h k = cc
unseen-lt id seen (x ∷ xs) h k = elim (Bool-cases (x == id)) [
  | inl e ↦
      let same : x ≡ id = ground arith in
      let new : contains seen x ≡ false = subst (λ y. contains seen y ≡ false) (sym same) k in
      ground (arith, unseen-le id seen xs)
  | inr e ↦ ground (arith, unseen-lt id seen xs)
]

unseen-length : (xs : List ℕ) → unseen [] xs ≡ length xs
unfolding unseen contains
unseen-length [] = refl
unseen-length (x ∷ xs) = ap suc (unseen-length xs)

ids_of-update :
    (p : DownloadRecord → Bool) (f : DownloadRecord → DownloadRecord) (rs : List DownloadRecord)
    → ((r : DownloadRecord) → (f r).id ≡ r.id)
    → ids_of (update_where p f rs) ≡ ids_of rs
unfolding update_where
ids_of-update p f [] h = refl
ids_of-update p f (r ∷ rs) h = ground (arith, h r, ids_of-update p f rs h)

exec-ids :
    (p : DownloadRecord → Bool) (f : DownloadRecord → DownloadRecord) (c : Conn)
    → ((r : DownloadRecord) → (f r).id ≡ r.id)
    → ids_of (exec (λ db. record db { downloads = update_where p f db.downloads }) c).1.db.downloads
      ≡ ids_of c.db.downloads
unfolding exec
exec-ids p f c h = elim (Bool-cases (is_faulty c.faults)) [
  | inl bad ↦ rw (bad, exec)
  | inr good ↦ rw (good, exec) (ids_of-update p f c.db.downloads h)
]

-- No round of the loop adds or removes a row.
drain_one-keys : (now id : ℕ) (m : Manager) → keys (drain_one now id m) ≡ keys m
unfolding launch mark_downloading mark_rows update_download set_queue_position
drain_one-keys now id m = elim (Bool-cases (contains m.active id)) [
  | inl running ↦ rw running (exec-ids (has_id id) _ m.state (λ r. refl))
  | inr idle ↦ rw idle (exec-ids (has_id id) _ m.state (λ r. refl))
]

-- A round that goes on saw a row for the first time.
drawn-new :
    (a : Result (Option DownloadRecord)) (seen : List ℕ) (id : ℕ)
    → drawn a seen ≡ some id
    → (r : DownloadRecord) × (a ≡ ok (some r)) × (r.id ≡ id) × (contains seen id ≡ false)
drawn-new (err e) seen id h = cc
drawn-new (ok none) seen id h = cc
drawn-new (ok (some r)) seen id h = elim (Bool-cases (contains seen r.id)) [
  | inl old ↦ cc (rw old at h)
  | inr new ↦
      let same : r.id ≡ id = some-injective _ _ (rw new at h) in
      (r, refl, same, subst (λ x. contains seen x ≡ false) same new)
]

drain_loop_ends :
    (now fuel : ℕ) (seen : List ℕ) (m : Manager)
    → unseen seen (keys m) < fuel
    → (drain_loop now fuel seen m).1 ≡ true
unfolding drain_loop
drain_loop_ends now zero seen m h = elim h [ ]
drain_loop_ends now (suc fuel) seen m h = elim (Bool-cases (has_slot m)) [
  | inr full ↦ rw (full, drain_loop)
  | inl free ↦
      let next = next_in_queue m.state in
      let m' : Manager = record m { state = next.1 } in
      elim (Option-cases (drawn next.0 seen)) [
        | inl e ↦ rw (free, drain_loop) (rw (e, drain_loop))
        | inr (id, e) ↦
            let (r, found, same, new) = drawn-new next.0 seen id e in
            let served : Serves m.state.db.downloads (some r) =
              next_in_queue-Serves m.state (some r) found in
            let old_keys : keys (drain_one now id m') ≡ keys m =
              drain_one-keys now id m'
              ∙ ap (λ (db : Db). ids_of db.downloads) (next_in_queue-db m.state) in
            let fewer : unseen (id ∷ seen) (keys m) < unseen seen (keys m) =
              unseen-lt id seen (keys m) (subst (λ x. contains (keys m) x ≡ true) same served.1)
                new in
            rw (free, drain_loop)
              (rw (e, drain_loop)
                (drain_loop_ends now fuel (id ∷ seen) (drain_one now id m')
                  (rw old_keys (omega arith))))
      ]
]

length-ids_of : (rs : List DownloadRecord) → length (ids_of rs) ≡ length rs
length-ids_of [] = refl
length-ids_of (r ∷ rs) = ap suc (length-ids_of rs)

-- The loop returns by one of its own exits: the fuel of `drainQueue` never runs out, whichever
-- statements fail.
pub drain_queue_ends :
    (now : ℕ) (m : Manager) → (drain_loop now (suc (length m.state.db.downloads)) [] m).1 ≡ true
drain_queue_ends now m =
    drain_loop_ends now (suc (length m.state.db.downloads)) [] m
      (omega (arith, unseen-length (keys m), length-ids_of m.state.db.downloads))
