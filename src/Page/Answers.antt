-- ===== src/Page/Answers.antt =====
-- The slots through finalize and the answers to a prompt, of internal/ui/pages/downloads.go.
use lunefetch.Base.{
  ℕ, ◌≡◌, if◌then◌else◌, List, ◌∷◌, Option, none, some, Bool, true, false, ◌&&◌, ◌||◌, not,
  contains, All-map, arith, Bool-cases, Option-cases, inl, inr, String, text_eq,
}
use lunefetch.Base.Counts.{count-present, count-Distinct, count-filter}
use lunefetch.Storage.Record.{Status}
use lunefetch.Storage.Sql.{first}
use lunefetch.Core.Files.{
  MoveFaults, MoveError, move_file, replace_file, unique_download_path, Paths,
}
use lunefetch.Queue.{forget}
use lunefetch.Page.{World, Worker, Prompt, Page, settle}
use lunefetch.Page.Finish.{
  put_paths, paths_of, prompted, conflict, moved, finalize, after_start, has_returned, failed_of,
  worker_done, claim, saved, resolve_claimed, with_claim, look_up, Answer, keep_both, replace,
  cancel, pick_name, clean_part, answer_prompt,
}
use lunefetch.Page.Holds.{
  runs, Holds, release-Holds, holders-remove, runs-remove, All-remove, IsEntered,
}
use lunefetch.Page.Starts.{at-Holds, settle-Holds}

-- The files of a page hold no slot.
put_paths-Holds :
    (id : ℕ) (dest : String) (f : Paths) (others : List ℕ) (p : Page)
    → Holds others p
    → Holds others (put_paths id dest f p)
put_paths-Holds id dest f others p h = record {
  distinct = h.distinct;
  owned = h.owned;
  listed = h.listed;
  entered = h.entered;
}

pub clean_part-Holds :
    (fails : Bool) (id : ℕ) (others : List ℕ) (p : Page)
    → Holds others p
    → Holds others (clean_part fails id p)
clean_part-Holds true id others p h = h
clean_part-Holds false id others p h = record {
  distinct = h.distinct;
  owned = h.owned;
  listed = h.listed;
  entered = h.entered;
}

module _ (now : ℕ) (others : List ℕ) where
  -- A goroutine hands its slot to a prompt.
  conflict-Holds :
      (v : Worker) (p : Page) → Holds (v.id ∷ others) p → Holds others (conflict now v p)
  unfolding conflict
  conflict-Holds v p h =
      elim (p.shutting_down || not p.has_window)
        as (λ b. Holds others (if b then settle now v.id Status.paused p else prompted v p)) [
          | true ↦ settle-Holds now v.id Status.paused others p h
          | false ↦ record {
            distinct = h.distinct;
            owned = λ x. elim (Bool-cases (contains p.pending v.id)) [
              | inl twice ↦ absurd (
                  ground (
                    arith,
                    h.owned v.id,
                    count-present v.id p.pending twice,
                    count-Distinct v.id p.queue.active h.distinct,
                  ))
              | inr new ↦ rw new (omega (arith, h.owned x))
            ];
            listed = h.listed;
            entered = h.entered;
          }
        ]

  moved-Holds :
      (v : Worker) (e : Option MoveError) (p : Page)
      → Holds (v.id ∷ others) p
      → Holds others (moved now v e p)
  moved-Holds v none p h = settle-Holds now v.id Status.completed others p h
  moved-Holds v (some MoveError.destination_exists) p h = conflict-Holds v p h
  moved-Holds v (some MoveError.link_failed) p h = settle-Holds now v.id Status.failed others p h
  moved-Holds v (some MoveError.open_failed) p h = settle-Holds now v.id Status.failed others p h
  moved-Holds v (some MoveError.create_failed) p h = settle-Holds now v.id Status.failed others p h
  moved-Holds v (some MoveError.copy_failed) p h = settle-Holds now v.id Status.failed others p h
  moved-Holds v (some MoveError.close_failed) p h = settle-Holds now v.id Status.failed others p h
  moved-Holds v (some MoveError.remove_failed) p h = settle-Holds now v.id Status.failed others p h
  moved-Holds v (some MoveError.rename_failed) p h = settle-Holds now v.id Status.failed others p h

  after_start-Holds :
      (faults : MoveFaults) (v : Worker) (failed : Bool) (p : Page)
      → Holds (v.id ∷ others) p
      → Holds others (after_start faults now v failed p)
  unfolding after_start finalize
  after_start-Holds faults v failed p h =
      let finished : Holds others (finalize faults now v p) =
        moved-Holds v (move_file faults (paths_of v.id v.dest p)).0 _
          (put_paths-Holds v.id v.dest _ _ p h) in
      elim (Bool-cases (failed && not v.cancelled)) [
        | inl broke ↦ rw broke (settle-Holds now v.id Status.failed others p h)
        | inr fine ↦ elim (Bool-cases v.cancelled) [
          | inl stopped ↦ rw (fine, stopped) (release-Holds v.id others p h now)
          | inr went ↦ rw (fine, went) finished
        ]
      ]

  pub worker_done-Holds :
      (faults : MoveFaults) (key : ℕ) (p : Page)
      → Holds others p
      → Holds others (worker_done faults now key p)
  unfolding worker_done
  worker_done-Holds faults key p h = elim (Option-cases (first (has_returned key) p.workers)) [
    | inl nobody ↦ rw (nobody, worker_done) h
    | inr (v, found) ↦
        rw (found, worker_done)
          (after_start-Holds faults v (failed_of v.returned) _ (record {
            distinct = h.distinct;
            owned = λ x.
                omega (arith, h.owned x, holders-remove (has_returned key) v x p.workers found);
            listed =
                All-map (λ e. runs e p.workers ≡ true) _ p.active
                  (λ e r. runs-remove (has_returned key) e p.workers (λ u t. ground arith) r)
                  h.listed;
            entered = All-remove (IsEntered p.active) (has_returned key) p.workers h.entered;
          }))
  ]

  -- The answer to a prompt takes the slot over from it.
  with_claim-Holds :
      (id : ℕ) (p : Page) (f : Page → Page)
      → ((q : Page) → Holds (id ∷ others) q → Holds others (f q))
      → Holds others p
      → Holds others (with_claim id p f)
  unfolding claim forget
  with_claim-Holds id p f keeps h = elim (Bool-cases (contains p.pending id)) [
    | inr answered ↦ rw (answered, with_claim) h
    | inl open_yet ↦
        rw (open_yet, with_claim)
          (keeps _ (record {
            distinct = h.distinct;
            owned = λ x. ground (
              arith,
              h.owned x,
              h.owned id,
              count-filter id x p.pending,
              count-present id p.pending open_yet,
              count-Distinct id p.queue.active h.distinct,
            );
            listed = h.listed;
            entered = h.entered;
          }))
  ]

  saved-Holds :
      (w : World) (q : Prompt) (dest : String) (e : Option MoveError) (p : Page)
      → Holds (q.id ∷ others) p
      → Holds others (saved w now q dest e p)
  saved-Holds w q dest (some e) p h = settle-Holds now q.id Status.failed others p h
  saved-Holds w q dest none p h = elim (Bool-cases (text_eq (w.base dest) q.filename)) [
    | inl same ↦ rw same (settle-Holds now q.id Status.completed others p h)
    | inr other ↦ rw other (settle-Holds now q.id Status.completed others _ (at-Holds _ _ p h))
  ]

  resolve-Holds :
      (w : World) (faults : MoveFaults) (q : Prompt) (dest : String) (b : Bool) (p : Page)
      → Holds (q.id ∷ others) p
      → Holds others (resolve_claimed w faults now q dest b p)
  unfolding resolve_claimed
  resolve-Holds w faults q dest true p h =
      saved-Holds w q dest (replace_file faults (paths_of q.id dest p)).0 _
        (put_paths-Holds q.id dest _ _ p h)
  resolve-Holds w faults q dest false p h =
      saved-Holds w q dest (move_file faults (paths_of q.id dest p)).0 _
        (put_paths-Holds q.id dest _ _ p h)

  pick_name-Holds :
      (w : World) (faults : MoveFaults) (q : Prompt) (o : Option ℕ) (p : Page)
      → Holds others p
      → Holds others (pick_name w faults now q o p)
  pick_name-Holds w faults q none p h =
      with_claim-Holds q.id p _ (λ r k. settle-Holds now q.id Status.failed others r k) h
  pick_name-Holds w faults q (some i) p h =
      with_claim-Holds q.id p _ (λ r k. resolve-Holds w faults q _ false r k) h

  pub answer_prompt-Holds :
      (w : World) (faults : MoveFaults) (q : Prompt) (a : Answer) (p : Page)
      → Holds others p
      → Holds others (answer_prompt w faults now q a p)
  unfolding answer_prompt
  answer_prompt-Holds w faults q (keep_both bad) p h =
      pick_name-Holds w faults q (unique_download_path (look_up w q.dest bad p)) p h
  answer_prompt-Holds w faults q replace p h =
      with_claim-Holds q.id p _ (λ r k. resolve-Holds w faults q q.dest true r k) h
  answer_prompt-Holds w faults q (cancel fails) p h =
      with_claim-Holds q.id p _
        (λ r k. settle-Holds now q.id Status.cancelled others _ (clean_part-Holds fails q.id _ r k))
        h
