-- ===== src/Queue/Work.antt =====
-- No slot stays free while a download waits.
use lunefetch.Base.{
  ℕ, zero, suc, ◌≡◌, refl, sym, ap, subst, if◌then◌else◌, List, [], ◌∷◌, Option, none, some, true,
  false, ◌⊎◌, length, contains, All, arith, Bool-cases, Option-cases, inl, inr,
}
use lunefetch.Storage.Record.{Status, DownloadRecord, Db}
use lunefetch.Storage.Sql.{Conn, ok, update_where, exec}
use lunefetch.Storage.Rows.{All-update_where}
use lunefetch.Storage.Downloads.{has_id, update_download}
use lunefetch.Storage.Queue.{is_queued, next_in_queue, next_row, mark_downloading, mark_rows}
use lunefetch.Storage.Queue.Next.{
  next_in_queue-db, next_in_queue_fine, next_row-none, next_row_lem, next_row-All,
}
use lunefetch.Queue.{Manager, has_slot, launch, drawn, drain_one, drain_loop, drain_queue}
use lunefetch.Queue.Drain.{drain_queue_ends}

-- None of the keys belongs to a waiting row.
abbrev pub IsClear : List ℕ → List DownloadRecord → Type 0
IsClear xs rs = All (λ r. is_queued r ≡ true → contains xs r.id ≡ false) rs

-- No running download waits.
pub record IsSettled (m : Manager) : Type 0 where
  pub fine : m.state.faults ≡ []
  pub clear : IsClear m.active m.state.db.downloads

abbrev NoneWaits : Manager → Type 0
NoneWaits m = All (λ r. is_queued r ≡ false) m.state.db.downloads

exec_fine :
    (f : Db → Db) (c : Conn)
    → c.faults ≡ []
    → ((exec f c).1.db ≡ f c.db) × ((exec f c).1.faults ≡ [])
unfolding exec
exec_fine f c h = ground arith

mark-IsClear :
    (now id : ℕ) (xs : List ℕ) (rs : List DownloadRecord)
    → IsClear xs rs
    → IsClear (id ∷ xs) (
        update_where
          (has_id id)
          (λ r. record r { status = Status.downloading; queue_position = none; updated_at = now })
          rs)
unfolding contains
mark-IsClear now id xs rs clear =
    All-update_where (λ r. is_queued r ≡ true → contains xs r.id ≡ false) _ (has_id id) _ rs
      (λ r h. marked r h) clear
  where
    marked :
        (r : DownloadRecord)
        → (is_queued r ≡ true → contains xs r.id ≡ false)
        → let s =
            (if has_id id r
              then record r { status = Status.downloading; queue_position = none; updated_at = now }
              else r) in
          (is_queued s ≡ true → contains (id ∷ xs) s.id ≡ false)
    marked r h = elim (Bool-cases (has_id id r)) [
      | inl e ↦ rw e (λ q. cc)
      | inr e ↦ rw e (λ q. ground (arith, h q))
    ]

pub launch-rows :
    (now id : ℕ) (m : Manager)
    → m.state.faults ≡ []
    → ((launch now id m).state.db.downloads
        ≡ update_where
            (has_id id)
            (λ r. record r { status = Status.downloading; queue_position = none; updated_at = now })
            m.state.db.downloads)
      × ((launch now id m).state.faults ≡ [])
unfolding launch mark_downloading mark_rows update_download
launch-rows now id m h =
    let (rows, fine) = exec_fine (mark_rows id now) m.state h in
    (ap (λ (db : Db). db.downloads) rows, fine)

drawn-none : (o : Option DownloadRecord) (seen : List ℕ) → o ≡ none → drawn (ok o) seen ≡ none
drawn-none o seen e = rw e

drawn-some :
    (o : Option DownloadRecord) (r : DownloadRecord) (seen : List ℕ)
    → o ≡ some r
    → contains seen r.id ≡ false
    → drawn (ok o) seen ≡ some r.id
drawn-some o r seen e new = rw (e, new)

moved-IsSettled :
    (m : Manager) → IsSettled m → IsSettled (record m { state = (next_in_queue m.state).1 })
moved-IsSettled m s = record {
  fine = (next_in_queue_fine m.state s.fine).1;
  clear = rw (next_in_queue-db m.state) s.clear;
}

-- In a settled state the loop goes on as long as there is a slot and a waiting row.
drawn-cases :
    (seen : List ℕ) (m : Manager)
    → IsSettled m
    → IsClear seen m.state.db.downloads
    → ((drawn (next_in_queue m.state).0 seen ≡ none) × NoneWaits m)
      ⊎ ((id : ℕ) × (drawn (next_in_queue m.state).0 seen ≡ some id)
          × (contains m.active id ≡ false))
drawn-cases seen m s clear =
    let (answer, _) = next_in_queue_fine m.state s.fine in
    elim (Option-cases (next_row m.state.db.downloads)) [
      | inl e ↦ inl (
        rw answer (drawn-none (next_row m.state.db.downloads) seen e),
        next_row-none m.state.db.downloads e,
      )
      | inr (r, e) ↦
          let (waits, _, _) = next_row_lem m.state.db.downloads r e in
          let new : contains seen r.id ≡ false =
            next_row-All (λ s. is_queued s ≡ true → contains seen s.id ≡ false) m.state.db.downloads
              r e clear waits in
          let idle : contains m.active r.id ≡ false =
            next_row-All (λ t. is_queued t ≡ true → contains m.active t.id ≡ false)
              m.state.db.downloads r e s.clear waits in
          inr (r.id, rw answer (drawn-some (next_row m.state.db.downloads) r seen e new), idle)
    ]

module _ (now : ℕ) where
  -- A launch takes its row out of the queue.
  pub launch-IsSettled :
      (id : ℕ) (xs : List ℕ) (m : Manager)
      → IsSettled m
      → IsClear xs m.state.db.downloads
      → IsSettled (launch now id m) × IsClear (id ∷ xs) (launch now id m).state.db.downloads
  unfolding launch
  launch-IsSettled id xs m s clear =
      let (rows, fine) = launch-rows now id m s.fine in
      (
        record {
          fine = fine;
          clear =
              subst (IsClear (id ∷ m.active)) (sym rows)
                (mark-IsClear now id m.active m.state.db.downloads s.clear);
        },
        subst (IsClear (id ∷ xs)) (sym rows) (mark-IsClear now id xs m.state.db.downloads clear),
      )

  drain_one-launch :
      (id : ℕ) (m : Manager) → contains m.active id ≡ false → drain_one now id m ≡ launch now id m
  drain_one-launch id m idle = rw idle

  -- The loop with no fault: it ends settled, with every slot taken or nothing left to start.
  drain_loop_works :
      (fuel : ℕ) (seen : List ℕ) (m : Manager)
      → IsSettled m
      → IsClear seen m.state.db.downloads
      → (drain_loop now fuel seen m).1 ≡ true
      → let n = (drain_loop now fuel seen m).0 in ((has_slot n ≡ false) ⊎ NoneWaits n) × IsSettled n
  unfolding drain_loop
  drain_loop_works zero seen m s clear h = cc
  drain_loop_works (suc fuel) seen m s clear h = elim (Bool-cases (has_slot m)) [
    | inr full ↦ rw (full, drain_loop) (inl full, s)
    | inl free ↦
        let next = next_in_queue m.state in
        let m' : Manager = record m { state = next.1 } in
        let s' : IsSettled m' = moved-IsSettled m s in
        let same : next.1.db ≡ m.state.db = next_in_queue-db m.state in
        elim (drawn-cases seen m s clear) [
          | inl (e, idle) ↦ rw (free, drain_loop) (rw (e, drain_loop) (inr (rw same idle), s'))
          | inr (id, e, idle) ↦
              let (t, clear') = launch-IsSettled id seen m' s' (rw same clear) in
              rw (free, drain_loop)
                (rw (e, drain_loop)
                  (rw (drain_one-launch id m' idle) (
                    drain_loop_works fuel (id ∷ seen) (launch now id m') t clear' (
                      rw (drain_one-launch id m' idle) at
                        (rw (e, drain_loop) at (rw (free, drain_loop) at h))))))
        ]
  ]

none-IsClear : (rs : List DownloadRecord) → IsClear [] rs
unfolding contains
none-IsClear [] = tt
none-IsClear (r ∷ rs) = ((λ _. refl), none-IsClear rs)

-- With no database error, from a state where no running download waits: after `drainQueue` every
-- slot is taken or no download waits, and still no running download waits.
pub drain_queue_works :
    (now : ℕ) (m : Manager)
    → IsSettled m
    → let n = drain_queue now m in
      ((has_slot n ≡ false) ⊎ All (λ r. is_queued r ≡ false) n.state.db.downloads) × IsSettled n
unfolding drain_queue
drain_queue_works now m s =
    drain_loop_works now (suc (length m.state.db.downloads)) [] m s
      (none-IsClear m.state.db.downloads) (drain_queue_ends now m)
