-- ===== src/Page/Finish.antt =====
-- What follows the return of Start: `finalize` and `promptConflict` of internal/ui/pages/downloads.go.
use lunefetch.Base.{
  ℕ, ◌==◌, if◌then◌else◌, List, ◌∷◌, Option, none, some, Bool, true, false, ◌&&◌, ◌||◌, not,
  contains, String, text_eq,
}
use lunefetch.Storage.Record.{Status, is_some}
use lunefetch.Storage.Sql.{first}
use lunefetch.Storage.Downloads.{update_download_filename}
use lunefetch.Core.Files.{
  Contents, Paths, MoveFaults, MoveError, destination_exists, move_file, replace_file, Lookup,
  absent, present, broken, unique_download_path,
}
use lunefetch.Queue.{forget}
use lunefetch.Page.{World, Worker, Prompt, Page, stored, release, settle, remove_first}

abbrev pub paths_of : ℕ → String → Page → Paths
paths_of id dest p = record { source = p.parts id; dest = p.dests dest }

abbrev pub set_part : ℕ → Option Contents → Page → Page
set_part id bytes p = record p { parts = λ i. if i == id then bytes else p.parts i }

abbrev pub set_dest : String → Option Contents → Page → Page
set_dest dest bytes p = record p { dests = λ d. if text_eq d dest then bytes else p.dests d }

abbrev pub put_paths : ℕ → String → Paths → Page → Page
put_paths id dest f p = set_dest dest f.dest (set_part id f.source p)

abbrev pub add_pending : ℕ → List ℕ → List ℕ
add_pending id xs = if contains xs id then xs else id ∷ xs

abbrev pub prompted : Worker → Page → Page
prompted v p = record p {
  pending = add_pending v.id p.pending;
  prompts = record { id = v.id; dest = v.dest; filename = v.filename } ∷ p.prompts;
}

-- The end of finalize, where the destination is taken.
unfoldable pub conflict : ℕ → Worker → Page → Page
conflict now v p =
    if p.shutting_down || not p.has_window then settle now v.id Status.paused p else prompted v p

abbrev pub moved : ℕ → Worker → Option MoveError → Page → Page
moved now v none p = settle now v.id Status.completed p
moved now v (some destination_exists) p = conflict now v p
moved now v (some _) p = settle now v.id Status.failed p

unfoldable pub finalize : MoveFaults → ℕ → Worker → Page → Page
unfolding conflict
finalize faults now v p =
    let (e, f) = move_file faults (paths_of v.id v.dest p) in
    moved now v e (put_paths v.id v.dest f p)

-- The goroutine after it left dp.active.
unfoldable pub after_start : MoveFaults → ℕ → Worker → Bool → Page → Page
unfolding finalize
after_start faults now v failed p =
    if failed && not v.cancelled
    then settle now v.id Status.failed p
    else if v.cancelled
    then release now v.id p
    else finalize faults now v p

abbrev pub has_returned : ℕ → Worker → Bool
has_returned key v = is_some v.returned && v.key == key

abbrev pub failed_of : Option Bool → Bool
failed_of none = false
failed_of (some failed) = failed

unfoldable pub worker_done : MoveFaults → ℕ → ℕ → Page → Page
unfolding after_start
worker_done faults now key p = elim (first (has_returned key) p.workers) [
  | none ↦ p
  | some v ↦
      after_start faults now v (failed_of v.returned)
        (record p { workers = remove_first (has_returned key) p.workers })
]

-- The closure `claim`: `none` if the prompt is not pending.
unfoldable pub claim : ℕ → Page → Option Page
claim id p =
    if contains p.pending id then some (record p { pending = forget id p.pending }) else none

abbrev pub renamed : World → ℕ → Prompt → String → Page → Page
renamed w now q dest p =
    if text_eq (w.base dest) q.filename
    then p
    else stored (update_download_filename q.id (w.base dest) now) p

abbrev pub saved : World → ℕ → Prompt → String → Option MoveError → Page → Page
saved w now q dest none p = settle now q.id Status.completed (renamed w now q dest p)
saved w now q dest (some e) p = settle now q.id Status.failed p

-- The closure `resolve` behind its claim.
unfoldable pub resolve_claimed : World → MoveFaults → ℕ → Prompt → String → Bool → Page → Page
resolve_claimed w faults now q dest replace p =
    let (e, f) =
      (if replace
        then replace_file faults (paths_of q.id dest p)
        else move_file faults (paths_of q.id dest p)) in
    saved w now q dest e (put_paths q.id dest f p)

abbrev pub with_claim : ℕ → Page → (Page → Page) → Page
with_claim id p then_do = elim (claim id p) [ none ↦ p | some p' ↦ then_do p' ]

-- What Lstat says of the name of a number; `bad` are the names that it fails for.
abbrev pub look_up : World → String → (ℕ → Bool) → Page → ℕ → Lookup
look_up w dest bad p i =
    if bad i then broken else if is_some (p.dests (w.numbered dest i)) then present else absent

-- The buttons of the dialog.
pub data Answer : Type 0 where
  keep_both : (ℕ → Bool) → Answer
  replace : Answer
  cancel : Bool → Answer

abbrev pub pick_name : World → MoveFaults → ℕ → Prompt → Option ℕ → Page → Page
pick_name w faults now q none p = with_claim q.id p (λ p'. settle now q.id Status.failed p')
pick_name w faults now q (some i) p =
    with_claim q.id p (resolve_claimed w faults now q (w.numbered q.dest i) false)

-- CleanupFile of the part file, which may fail.
abbrev pub clean_part : Bool → ℕ → Page → Page
clean_part fails id p = if fails then p else set_part id none p

unfoldable pub answer_prompt : World → MoveFaults → ℕ → Prompt → Answer → Page → Page
unfolding claim resolve_claimed
answer_prompt w faults now q (keep_both bad) p =
    pick_name w faults now q (unique_download_path (look_up w q.dest bad p)) p
answer_prompt w faults now q replace p =
    with_claim q.id p (resolve_claimed w faults now q q.dest true)
answer_prompt w faults now q (cancel fails) p =
    with_claim q.id p (λ p'. settle now q.id Status.cancelled (clean_part fails q.id p'))
