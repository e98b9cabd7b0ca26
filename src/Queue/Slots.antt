-- ===== src/Queue/Slots.antt =====
-- The concurrency limit, and that no download runs twice.
use lunefetch.Base.{
  ℕ, ◌≤◌, ◌<◌, max, ◌≡◌, refl, ap, if◌then◌else◌, [], Option, none, some, Bool, true, false, length,
  contains, arith, Bool-cases, inl, inr,
}
use lunefetch.Base.Int64.{ℤ, pos, pos_part, ltb_ℤ}
use lunefetch.Storage.Record.{DownloadRecord, is_some}
use lunefetch.Storage.Sql.{Conn, Result, ok, err}
use lunefetch.Storage.Downloads.{get_download, set_scheduled_at}
use lunefetch.Queue.{
  Manager, has_slot, ignoring, launch, report, start_or_enqueue, start_read, try_start, drain_queue,
  set_max_concurrent, forget, on_done, outcome, enqueue, enqueue_scheduled, remove, drain, Call,
  sets_max, tries_start, ends, schedules, removes, drains, step,
}
use lunefetch.Base.Counts.{Distinct}
use lunefetch.Queue.Active.{drain_loop-keeps, forget-Distinct, length-forget-le, slot-lt}

-- At most `k` downloads run, none of them twice, under the limit `mc`.
pub record IsWithin (k : ℕ) (mc : ℤ) (m : Manager) : Type 0 where
  pub bounded : length m.active ≤ k
  pub limit : m.max_concurrent ≡ mc
  pub distinct : Distinct m.active

module _ (k : ℕ) (mc : ℤ) (room : pos_part mc ≤ k) where
  moved-IsWithin :
      (m : Manager) (c : Conn) → IsWithin k mc m → IsWithin k mc (record m { state = c })
  moved-IsWithin m c w = record { bounded = w.bounded; limit = w.limit; distinct = w.distinct }

  launch-IsWithin :
      (now : ℕ) (m : Manager) (id : ℕ)
      → has_slot m ≡ true
      → contains m.active id ≡ false
      → IsWithin k mc m
      → IsWithin k mc (launch now id m)
  unfolding launch
  launch-IsWithin now m id free idle w = record {
    bounded =
        let below : length m.active < pos_part m.max_concurrent =
          slot-lt (length m.active) m.max_concurrent free in
        let same : pos_part m.max_concurrent ≡ pos_part mc = ap pos_part w.limit in omega arith;
    limit = w.limit;
    distinct = (idle, w.distinct);
  }

  drain_queue-IsWithin :
      (now : ℕ) (m : Manager) → IsWithin k mc m → IsWithin k mc (drain_queue now m)
  unfolding drain_queue
  drain_queue-IsWithin now m w =
      drain_loop-keeps (IsWithin k mc) now moved-IsWithin (launch-IsWithin now) _ [] m w

  report-IsWithin :
      (m : Manager) (r : Result (Unit {0}) × Conn) → IsWithin k mc m → IsWithin k mc (report m r).1
  report-IsWithin m (ok a, c) w = moved-IsWithin m c w
  report-IsWithin m (err e, c) w = moved-IsWithin m c w

  start_or_enqueue-IsWithin :
      (now id : ℕ) (m : Manager)
      → contains m.active id ≡ false
      → IsWithin k mc m
      → IsWithin k mc (start_or_enqueue now id m).1
  start_or_enqueue-IsWithin now id m idle w = elim (Bool-cases (has_slot m)) [
    | inl free ↦ rw free (launch-IsWithin now m id free idle w)
    | inr full ↦ rw full (report-IsWithin m (enqueue now id m.state) w)
  ]

  start_read-IsWithin :
      (now id : ℕ) (m : Manager) (r : Result (Option DownloadRecord) × Conn)
      → contains m.active id ≡ false
      → IsWithin k mc m
      → IsWithin k mc (start_read now id m r).1
  start_read-IsWithin now id m (err e, c) idle w = moved-IsWithin m c w
  start_read-IsWithin now id m (ok none, c) idle w = moved-IsWithin m c w
  start_read-IsWithin now id m (ok (some r), c) idle w = elim (Bool-cases (is_some r.deleted_at)) [
    | inl gone ↦ rw gone (moved-IsWithin m c w)
    | inr live ↦
        rw live
          (start_or_enqueue-IsWithin now id (record m { state = c }) idle (moved-IsWithin m c w))
  ]

  try_start-IsWithin :
      (now id : ℕ) (m : Manager) → IsWithin k mc m → IsWithin k mc (try_start now id m).1
  unfolding try_start
  try_start-IsWithin now id m w = elim (Bool-cases (contains m.active id)) [
    | inl running ↦ rw running w
    | inr idle ↦ rw idle (start_read-IsWithin now id m (get_download id m.state) idle w)
  ]

  forget-IsWithin :
      (id : ℕ) (m : Manager)
      → IsWithin k mc m
      → IsWithin k mc (record m { active = forget id m.active })
  forget-IsWithin id m w = record {
    bounded = omega (arith, length-forget-le id m.active, w.bounded);
    limit = w.limit;
    distinct = forget-Distinct id m.active w.distinct;
  }

  on_done-IsWithin : (now id : ℕ) (m : Manager) → IsWithin k mc m → IsWithin k mc (on_done now id m)
  unfolding on_done
  on_done-IsWithin now id m w = elim (Bool-cases (contains m.active id)) [
    | inl running ↦
        rw running (drain_queue-IsWithin now _ (moved-IsWithin _ _ (forget-IsWithin id m w)))
    | inr idle ↦ rw idle w
  ]

  outcome-IsWithin : (r : Result Bool × Manager) → IsWithin k mc r.1 → IsWithin k mc (outcome r).1
  outcome-IsWithin (ok b, m) w = w
  outcome-IsWithin (err e, m) w = w

  enqueue_scheduled-IsWithin :
      (now id : ℕ) (m : Manager) → IsWithin k mc m → IsWithin k mc (enqueue_scheduled now id m).1
  unfolding enqueue_scheduled
  enqueue_scheduled-IsWithin now id m w = elim (Bool-cases (contains m.active id)) [
    | inl running ↦ rw running (moved-IsWithin m _ w)
    | inr idle ↦ rw idle (
        outcome-IsWithin (start_or_enqueue now id (ignoring (set_scheduled_at id none now) m))
          (start_or_enqueue-IsWithin now id _ idle (moved-IsWithin m _ w)))
  ]

  remove-IsWithin : (now id : ℕ) (m : Manager) → IsWithin k mc m → IsWithin k mc (remove now id m)
  unfolding remove
  remove-IsWithin now id m w = elim (Bool-cases (contains m.active id)) [
    | inl running ↦ rw running w
    | inr idle ↦ rw idle (moved-IsWithin m _ w)
  ]

-- The limit that a call leaves.
abbrev pub limit_after : Call → ℤ → ℤ
limit_after (sets_max n) mc = if ltb_ℤ n (pos 1) then pos 1 else n
limit_after _ mc = mc

step-IsWithin :
    (now : ℕ) (call : Call) (m : Manager) (k : ℕ)
    → length m.active ≤ k
    → pos_part (limit_after call m.max_concurrent) ≤ k
    → Distinct m.active
    → IsWithin k (limit_after call m.max_concurrent) (step now call m)
unfolding step set_max_concurrent drain
step-IsWithin now (sets_max n) m k b room d =
    drain_queue-IsWithin k _ room now _ (record { bounded = b; limit = refl; distinct = d })
step-IsWithin now (tries_start id) m k b room d =
    try_start-IsWithin k m.max_concurrent room now id m
      (record { bounded = b; limit = refl; distinct = d })
step-IsWithin now (ends id) m k b room d =
    on_done-IsWithin k m.max_concurrent room now id m
      (record { bounded = b; limit = refl; distinct = d })
step-IsWithin now (schedules id) m k b room d =
    enqueue_scheduled-IsWithin k m.max_concurrent room now id m
      (record { bounded = b; limit = refl; distinct = d })
step-IsWithin now (removes id) m k b room d =
    remove-IsWithin k m.max_concurrent room now id m
      (record { bounded = b; limit = refl; distinct = d })
step-IsWithin now drains m k b room d =
    drain_queue-IsWithin k m.max_concurrent room now m
      (record { bounded = b; limit = refl; distinct = d })

pub step-slots :
    (now : ℕ) (call : Call) (m : Manager)
    → Distinct m.active
    → let n = step now call m in
      (length n.active ≤ max (length m.active) (pos_part n.max_concurrent))
      × (n.max_concurrent ≡ limit_after call m.max_concurrent)
      × Distinct n.active
step-slots now call m d =
    let k : ℕ = max (length m.active) (pos_part (limit_after call m.max_concurrent)) in
    let w : IsWithin k (limit_after call m.max_concurrent) (step now call m) =
      step-IsWithin now call m k (omega arith) (omega arith) d in
    (
      let same : pos_part (step now call m).max_concurrent
              ≡ pos_part (limit_after call m.max_concurrent) =
            ap pos_part w.limit in
          omega (arith, w.bounded),
      w.limit,
      w.distinct,
    )
