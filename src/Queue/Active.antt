-- ===== src/Queue/Active.antt =====
-- The list of the running downloads, and what the loop of drainQueue keeps.
use lunefetch.Base.{
  ℕ, zero, suc, ◌≤◌, ◌<◌, ◌==◌, ◌≡◌, refl, List, [], ◌∷◌, true, false, not, length, contains,
  filter_by, arith, Bool-cases, Option-cases, inl, inr,
}
use lunefetch.Base.Int64.{ℤ, pos, negsuc, pos_part, ltb_ℤ}
use lunefetch.Storage.Sql.{Conn}
use lunefetch.Storage.Queue.{next_in_queue}
use lunefetch.Queue.{Manager, has_slot, launch, drawn, drain_one, drain_loop, forget}
use lunefetch.Base.Counts.{Distinct}

-- What holds of a manager and is kept by a launch into a free slot is kept by the loop.
pub drain_loop-keeps {ℓ} :
    (P : Manager → Type ℓ) (now : ℕ)
    → ((m : Manager) (c : Conn) → P m → P (record m { state = c }))
    → ((m : Manager) (id : ℕ)
        → has_slot m ≡ true
        → contains m.active id ≡ false
        → P m
        → P (launch now id m))
    → (fuel : ℕ) (seen : List ℕ) (m : Manager) → P m
    → P (drain_loop now fuel seen m).0
unfolding drain_loop
drain_loop-keeps P now moved launched zero seen m p = p
drain_loop-keeps P now moved launched (suc fuel) seen m p = elim (Bool-cases (has_slot m)) [
  | inr full ↦ rw (full, drain_loop) p
  | inl free ↦
      let next = next_in_queue m.state in
      let m' : Manager = record m { state = next.1 } in
      elim (Option-cases (drawn next.0 seen)) [
        | inl e ↦ rw (free, drain_loop) (rw (e, drain_loop) (moved m next.1 p))
        | inr (id, e) ↦
            rw (free, drain_loop)
              (rw (e, drain_loop)
                (drain_loop-keeps P now moved launched fuel (id ∷ seen) (drain_one now id m')
                  (one m' id free (moved m next.1 p))))
      ]
]
  where
    one : (m : Manager) (id : ℕ) → has_slot m ≡ true → P m → P (drain_one now id m)
    one m id free p = elim (Bool-cases (contains m.active id)) [
      | inl running ↦ rw running (moved m _ p)
      | inr idle ↦ rw idle (launched m id free idle p)
    ]

pub contains-forget :
    (id x : ℕ) (xs : List ℕ) → contains xs x ≡ false → contains (forget id xs) x ≡ false
unfolding forget filter_by contains
contains-forget id x [] h = refl
contains-forget id x (y ∷ ys) h = ground (arith, contains-forget id x ys)

pub forget-Distinct : (id : ℕ) (xs : List ℕ) → Distinct xs → Distinct (forget id xs)
unfolding forget filter_by
forget-Distinct id [] d = tt
forget-Distinct id (y ∷ ys) d = elim (Bool-cases (not (y == id))) [
  | inl k ↦
      rw (k, filter_by) (unfold forget in contains-forget id y ys d.0, forget-Distinct id ys d.1)
  | inr k ↦ rw (k, filter_by) (forget-Distinct id ys d.1)
]

pub length-forget-le : (id : ℕ) (xs : List ℕ) → length (forget id xs) ≤ length xs
unfolding forget filter_by
length-forget-le id [] = omega arith
length-forget-le id (y ∷ ys) = ground (arith, length-forget-le id ys)

pub slot-lt : (n : ℕ) (z : ℤ) → ltb_ℤ (pos n) z ≡ true → n < pos_part z
slot-lt n (pos k) h = ground arith
slot-lt n (negsuc k) h = ground arith
