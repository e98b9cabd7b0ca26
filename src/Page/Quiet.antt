-- ===== src/Page/Quiet.antt =====
-- After Shutdown of internal/ui/pages/downloads.go, over any series of events.
use lunefetch.Base.{
  ℕ, ◌==◌, sym, ap, subst, if◌then◌else◌, List, [], ◌∷◌, map, Option, none, some, Bool, true, false,
  ◌&&◌, not, contains, arith, Bool-cases, Option-cases, inl, inr, String,
}
use lunefetch.Base.Int64.{ℤ}
use lunefetch.Storage.Record.{Status, DownloadRecord}
use lunefetch.Storage.Sql.{Conn, Result, ok, err, first}
use lunefetch.Storage.History.{reset_progress}
use lunefetch.Core.Files.{MoveFaults, MoveError, move_file, unique_download_path}
use lunefetch.Queue.{forget}
use lunefetch.Page.{safe_path, World, Settings, Worker, Prompt, Page, at, has_entry, dir_of}
use lunefetch.Page.Finish.{
  moved, finalize, after_start, has_returned, failed_of, worker_done, claim, with_claim, look_up,
  Answer, keep_both, replace, cancel, pick_name, clean_part, answer_prompt, paths_of,
}
use lunefetch.Page.Actions.{
  cancel_key, cancel_active, pause_download, each, resume_download, set_limiter, limited,
  fetch_again, again_at, again_read, part_read,
}
use lunefetch.Page.Life.{answer}
use lunefetch.Page.Holds.{All-remove}
use lunefetch.Page.Closing.{
  IsStopped, IsClosed, queue-IsClosed, files-IsClosed, workers-IsClosed, conflict-IsClosed,
  length-remove-le,
}

module _ (n now : ℕ) where
  moved-IsClosed :
      (v : Worker) (e : Option MoveError) (p : Page) → IsClosed n p → IsClosed n (moved now v e p)
  moved-IsClosed v none p k = queue-IsClosed n _ _ p k
  moved-IsClosed v (some MoveError.destination_exists) p k = conflict-IsClosed n now v p k
  moved-IsClosed v (some MoveError.link_failed) p k = queue-IsClosed n _ _ p k
  moved-IsClosed v (some MoveError.open_failed) p k = queue-IsClosed n _ _ p k
  moved-IsClosed v (some MoveError.create_failed) p k = queue-IsClosed n _ _ p k
  moved-IsClosed v (some MoveError.copy_failed) p k = queue-IsClosed n _ _ p k
  moved-IsClosed v (some MoveError.close_failed) p k = queue-IsClosed n _ _ p k
  moved-IsClosed v (some MoveError.remove_failed) p k = queue-IsClosed n _ _ p k
  moved-IsClosed v (some MoveError.rename_failed) p k = queue-IsClosed n _ _ p k

  after_start-IsClosed :
      (faults : MoveFaults) (v : Worker) (failed : Bool) (p : Page)
      → IsClosed n p
      → IsClosed n (after_start faults now v failed p)
  unfolding after_start finalize
  after_start-IsClosed faults v failed p k =
      let finished : IsClosed n (finalize faults now v p) =
        moved-IsClosed v (move_file faults (paths_of v.id v.dest p)).0 _
          (files-IsClosed n _ _ p k) in
      elim (Bool-cases (failed && not v.cancelled)) [
        | inl broke ↦ rw broke (queue-IsClosed n _ _ p k)
        | inr fine ↦ elim (Bool-cases v.cancelled) [
          | inl stops ↦ rw (fine, stops) (queue-IsClosed n _ _ p k)
          | inr went ↦ rw (fine, went) finished
        ]
      ]

  pub worker_done-IsClosed :
      (faults : MoveFaults) (key : ℕ) (p : Page)
      → IsClosed n p
      → IsClosed n (worker_done faults now key p)
  unfolding worker_done
  worker_done-IsClosed faults key p k = elim (Option-cases (first (has_returned key) p.workers)) [
    | inl nobody ↦ rw (nobody, worker_done) k
    | inr (v, found) ↦
        rw (found, worker_done)
          (after_start-IsClosed faults v (failed_of v.returned) _ (record {
            closing = k.closing;
            unasked = k.unasked;
            stopped = All-remove IsStopped (has_returned key) p.workers k.stopped;
            bounded = omega (arith, length-remove-le (has_returned key) p.workers, k.bounded);
          }))
  ]

  -- No prompt is pending, so no answer is taken.
  with_claim-IsClosed :
      (id : ℕ) (p : Page) (f : Page → Page) → IsClosed n p → IsClosed n (with_claim id p f)
  unfolding claim contains
  with_claim-IsClosed id p f k =
      subst (IsClosed n)
        (sym (
          ap
            (λ (ids : List ℕ).
              elim (if contains ids id then some (record p { pending = forget id ids }) else none)
                as (λ _. Page) [ none ↦ p | some q ↦ f q ])
            k.unasked))
        k

  pick_name-IsClosed :
      (w : World) (faults : MoveFaults) (q : Prompt) (o : Option ℕ) (p : Page)
      → IsClosed n p
      → IsClosed n (pick_name w faults now q o p)
  pick_name-IsClosed w faults q none p k = with_claim-IsClosed q.id p _ k
  pick_name-IsClosed w faults q (some i) p k = with_claim-IsClosed q.id p _ k

  answer_prompt-IsClosed :
      (w : World) (faults : MoveFaults) (q : Prompt) (a : Answer) (p : Page)
      → IsClosed n p
      → IsClosed n (answer_prompt w faults now q a p)
  unfolding answer_prompt
  answer_prompt-IsClosed w faults q (keep_both bad) p k =
      pick_name-IsClosed w faults q (unique_download_path (look_up w q.dest bad p)) p k
  answer_prompt-IsClosed w faults q replace p k = with_claim-IsClosed q.id p _ k
  answer_prompt-IsClosed w faults q (cancel fails) p k = with_claim-IsClosed q.id p _ k

  pub answer-IsClosed :
      (w : World) (faults : MoveFaults) (id : ℕ) (a : Answer) (p : Page)
      → IsClosed n p
      → IsClosed n (answer w faults now id a p)
  unfolding answer
  answer-IsClosed w faults id a p k = elim (Option-cases (first (λ q. q.id == id) p.prompts)) [
    | inl unasked ↦ rw (unasked, answer) k
    | inr (q, found) ↦ rw (found, answer) (answer_prompt-IsClosed w faults q a p k)
  ]

  pub cancel_key-IsClosed :
      (key : ℕ) (p : Page)
      → IsClosed n p
      → IsClosed n (record p { workers = map (cancel_key key) p.workers })
  cancel_key-IsClosed key p k =
      workers-IsClosed n (cancel_key key) p (λ v still r. ground (arith, still r)) k

  pub cancel_active-IsClosed : (id : ℕ) (p : Page) → IsClosed n p → IsClosed n (cancel_active id p)
  unfolding cancel_active
  cancel_active-IsClosed id p k = elim (Option-cases (first (λ e. e.id == id) p.active)) [
    | inl idle ↦ rw (idle, cancel_active) k
    | inr (e, found) ↦ rw (found, cancel_active) (cancel_key-IsClosed e.key p k)
  ]

  pub each-IsClosed :
      {A : Type 0} (f : A → Page → Page) (xs : List A) (p : Page)
      → ((x : A) (q : Page) → IsClosed n q → IsClosed n (f x q))
      → IsClosed n p
      → IsClosed n (each f xs p)
  each-IsClosed f [] p keeps k = k
  each-IsClosed f (x ∷ xs) p keeps k = each-IsClosed f xs (f x p) keeps (keeps x p k)

  clean_part-IsClosed :
      (fails : Bool) (id : ℕ) (p : Page) → IsClosed n p → IsClosed n (clean_part fails id p)
  clean_part-IsClosed true id p k = k
  clean_part-IsClosed false id p k = files-IsClosed n _ _ p k

  pub pause_download-IsClosed :
      (id : ℕ) (p : Page) → IsClosed n p → IsClosed n (pause_download now id p)
  unfolding pause_download
  pause_download-IsClosed id p k = elim (Bool-cases (has_entry p.active id)) [
    | inl running ↦ rw running (queue-IsClosed n _ _ _ (cancel_active-IsClosed id p k))
    | inr idle ↦ rw idle k
  ]

  pub limited-IsClosed :
      (id : ℕ) (limit : ℤ) (o : Result (Unit {0}) × Conn) (p : Page)
      → IsClosed n p
      → IsClosed n (limited id limit o p)
  limited-IsClosed id limit (err e, c) p k = queue-IsClosed n _ _ p k
  limited-IsClosed id limit (ok a, c) p k = elim (Option-cases (first (λ e. e.id == id) p.active)) [
    | inl idle ↦ rw (idle, limited) (queue-IsClosed n _ _ p k)
    | inr (e, found) ↦
        rw (found, limited)
          (workers-IsClosed n (set_limiter e.key limit) (at c p) (λ v still. still)
            (queue-IsClosed n _ _ p k))
  ]

  fetch_again-IsClosed :
      (id : ℕ) (dest : String) (kf kp : Bool) (o : Result (Unit {0}) × Conn) (p : Page)
      → IsClosed n p
      → IsClosed n (fetch_again now id dest kf kp o p)
  unfolding resume_download
  fetch_again-IsClosed id dest kf kp (err e, c) p k = queue-IsClosed n _ _ p k
  fetch_again-IsClosed id dest true kp (ok a, c) p k = queue-IsClosed n _ _ p k
  fetch_again-IsClosed id dest false kp (ok a, c) p k =
      queue-IsClosed n _ _ _
        (clean_part-IsClosed kp id _ (files-IsClosed n _ _ (at c p) (queue-IsClosed n _ _ p k)))

  pub again_read-IsClosed :
      (w : World) (cfg : Settings) (id : ℕ) (kf kp : Bool)
      (o : Result (Option DownloadRecord) × Conn) (p : Page)
      → IsClosed n p
      → IsClosed n (again_read w cfg now id kf kp o p)
  again_read-IsClosed w cfg id kf kp (err e, c) p k = queue-IsClosed n _ _ p k
  again_read-IsClosed w cfg id kf kp (ok none, c) p k = queue-IsClosed n _ _ p k
  again_read-IsClosed w cfg id kf kp (ok (some r), c) p k =
      elim (Option-cases (safe_path w (dir_of cfg r.save_dir) r.filename)) [
        | inl unsafe ↦ rw (unsafe, again_at) (queue-IsClosed n _ _ p k)
        | inr (dest, e) ↦
            rw (e, again_at)
              (fetch_again-IsClosed id dest kf kp
                (reset_progress id Status.pending now (cancel_active id (at c p)).queue.state) _
                (cancel_active-IsClosed id (at c p) (queue-IsClosed n _ _ p k)))
      ]

  pub part_read-IsClosed :
      (fails : Bool) (id : ℕ) (o : Result (Option DownloadRecord) × Conn) (p : Page)
      → IsClosed n p
      → IsClosed n (part_read fails id o p)
  part_read-IsClosed fails id (err e, c) p k = queue-IsClosed n _ _ p k
  part_read-IsClosed fails id (ok none, c) p k = queue-IsClosed n _ _ p k
  part_read-IsClosed fails id (ok (some r), c) p k =
      clean_part-IsClosed fails id (at c p) (queue-IsClosed n _ _ p k)
