-- ===== src/Page/Prompts.antt =====
-- The dialog of promptConflict in internal/ui/pages/downloads.go: it is answered once, and the bytes of
-- the download are discarded by its Cancel only.
use text.Mathlib.TextPositions.{eq_refl}
use lunefetch.Base.{
  ℕ, ◌≡◌, refl, sym, subst, List, Option, none, some, Bool, true, false, ◌⊎◌, contains, arith,
  Bool-cases, inl, inr, String, text_eq, ==_refl,
}
use lunefetch.Base.Counts.{count-filter, count-present}
use lunefetch.Core.Files.{
  Contents, Paths, MoveFaults, MoveError, move_file, replace_file, unique_download_path,
}
use lunefetch.Core.Files.Moves.{IsKept, moves-IsKept}
use lunefetch.Queue.{forget}
use lunefetch.Page.{World, Prompt, Page}
use lunefetch.Page.Finish.{
  paths_of, put_paths, claim, saved, resolve_claimed, with_claim, look_up, Answer, keep_both,
  replace, cancel, pick_name, clean_part, answer_prompt,
}

contains-forget_self : (id : ℕ) (xs : List ℕ) → contains (forget id xs) id ≡ false
unfolding forget
contains-forget_self id xs = elim (Bool-cases (contains (forget id xs) id)) [
  | inr gone ↦ unfold forget in gone
  | inl still ↦
      absurd (ground (arith, count-present id (forget id xs) still, count-filter id id xs))
]

module _ (id : ℕ) (p : Page) where
  with_claim-idle : (f : Page → Page) → contains p.pending id ≡ false → with_claim id p f ≡ p
  unfolding claim
  with_claim-idle f idle = rw (idle, with_claim)

  -- What follows a claim leaves the prompts that wait alone.
  with_claim-answered :
      (f : Page → Page)
      → ((q : Page) → (f q).pending ≡ q.pending)
      → contains (with_claim id p f).pending id ≡ false
  unfolding claim
  with_claim-answered f same = elim (Bool-cases (contains p.pending id)) [
    | inr idle ↦ rw (idle, with_claim) idle
    | inl waits ↦
        rw (waits, with_claim)
          (subst (λ l. contains l id ≡ false) (sym (same _)) (contains-forget_self id p.pending))
  ]

module _ (w : World) (faults : MoveFaults) (now : ℕ) (q : Prompt) where
  saved-pending :
      (dest : String) (e : Option MoveError) (p : Page)
      → (saved w now q dest e p).pending ≡ p.pending
  saved-pending dest (some e) p = refl
  saved-pending dest none p = elim (Bool-cases (text_eq (w.base dest) q.filename)) [
    | inl same ↦ rw same
    | inr other ↦ rw other
  ]

  resolve-pending :
      (dest : String) (b : Bool) (p : Page)
      → (resolve_claimed w faults now q dest b p).pending ≡ p.pending
  unfolding resolve_claimed
  resolve-pending dest true p = saved-pending dest (replace_file faults (paths_of q.id dest p)).0 _
  resolve-pending dest false p = saved-pending dest (move_file faults (paths_of q.id dest p)).0 _

  clean-pending : (fails : Bool) (p : Page) → (clean_part fails q.id p).pending ≡ p.pending
  clean-pending true p = refl
  clean-pending false p = refl

  pick_name-answered :
      (o : Option ℕ) (p : Page) → contains (pick_name w faults now q o p).pending q.id ≡ false
  pick_name-answered none p = with_claim-answered q.id p _ (λ r. refl)
  pick_name-answered (some i) p = with_claim-answered q.id p _ (λ r. resolve-pending _ false r)

  answer-answered :
      (a : Answer) (p : Page) → contains (answer_prompt w faults now q a p).pending q.id ≡ false
  unfolding answer_prompt
  answer-answered (keep_both bad) p =
      pick_name-answered (unique_download_path (look_up w q.dest bad p)) p
  answer-answered replace p = with_claim-answered q.id p _ (λ r. resolve-pending q.dest true r)
  answer-answered (cancel fails) p = with_claim-answered q.id p _ (λ r. clean-pending fails r)

  pick_name-idle :
      (o : Option ℕ) (p : Page) → contains p.pending q.id ≡ false → pick_name w faults now q o p ≡ p
  pick_name-idle none p idle = with_claim-idle q.id p _ idle
  pick_name-idle (some i) p idle = with_claim-idle q.id p _ idle

  answer-idle :
      (a : Answer) (p : Page)
      → contains p.pending q.id ≡ false
      → answer_prompt w faults now q a p ≡ p
  unfolding answer_prompt
  answer-idle (keep_both bad) p idle =
      pick_name-idle (unique_download_path (look_up w q.dest bad p)) p idle
  answer-idle replace p idle = with_claim-idle q.id p _ idle
  answer-idle (cancel fails) p idle = with_claim-idle q.id p _ idle

-- A prompt is answered once: after an answer, another answer to it does nothing, whatever the answers
-- are, at any time and whatever fails.
pub answer_prompt-once :
    (w : World) (f g : MoveFaults) (t u : ℕ) (q : Prompt) (a b : Answer) (p : Page)
    → answer_prompt w g u q b (answer_prompt w f t q a p) ≡ answer_prompt w f t q a p
answer_prompt-once w f g t u q a b p =
    answer-idle w g u q b (answer_prompt w f t q a p) (answer-answered w f t q a p)

-- The bytes of a download are in its part file, or at a path and no longer there.
abbrev pub IsSaved : ℕ → Contents → String → Page → Type 0
IsSaved id bytes dest p =
    (p.parts id ≡ some bytes) ⊎ ((p.parts id ≡ none) × (p.dests dest ≡ some bytes))

put_paths-IsSaved :
    (id : ℕ) (dest : String) (bytes : Contents) (r : Option MoveError × Paths) (p : Page)
    → IsKept bytes r
    → IsSaved id bytes dest (put_paths id dest r.1 p)
put_paths-IsSaved id dest bytes (none, f) p (there, gone) =
    inr (rw (==_refl id) gone, rw (eq_refl dest) there)
put_paths-IsSaved id dest bytes (some e, f) p still = inl (rw (==_refl id) still)

module _ (w : World) (faults : MoveFaults) (now : ℕ) (q : Prompt) (bytes : Contents) where
  saved-IsSaved :
      (dest : String) (e : Option MoveError) (p : Page)
      → IsSaved q.id bytes dest p
      → IsSaved q.id bytes dest (saved w now q dest e p)
  saved-IsSaved dest (some e) p s = s
  saved-IsSaved dest none p s = elim (Bool-cases (text_eq (w.base dest) q.filename)) [
    | inl same ↦ rw same s
    | inr other ↦ rw other s
  ]

  resolve-IsSaved :
      (dest : String) (b : Bool) (p : Page)
      → p.parts q.id ≡ some bytes
      → IsSaved q.id bytes dest (resolve_claimed w faults now q dest b p)
  unfolding resolve_claimed
  resolve-IsSaved dest true p has =
      saved-IsSaved dest (replace_file faults (paths_of q.id dest p)).0 _
        (put_paths-IsSaved q.id dest bytes _ p (kept has))
    where
      kept : p.parts q.id ≡ some bytes → IsKept bytes (replace_file faults (paths_of q.id dest p))
      kept has =
          subst
            (λ o. IsKept bytes (replace_file faults (record { source = o; dest = p.dests dest })))
            (sym has) (moves-IsKept faults bytes (p.dests dest)).1
  resolve-IsSaved dest false p has =
      saved-IsSaved dest (move_file faults (paths_of q.id dest p)).0 _
        (put_paths-IsSaved q.id dest bytes _ p (kept has))
    where
      kept : p.parts q.id ≡ some bytes → IsKept bytes (move_file faults (paths_of q.id dest p))
      kept has =
          subst (λ o. IsKept bytes (move_file faults (record { source = o; dest = p.dests dest })))
            (sym has) (moves-IsKept faults bytes (p.dests dest)).0

  with_claim-IsSaved :
      (dest : String) (f : Page → Page) (p : Page)
      → p.parts q.id ≡ some bytes
      → ((r : Page) → r.parts q.id ≡ some bytes → IsSaved q.id bytes dest (f r))
      → IsSaved q.id bytes dest (with_claim q.id p f)
  unfolding claim
  with_claim-IsSaved dest f p has keeps = elim (Bool-cases (contains p.pending q.id)) [
    | inr idle ↦ rw (idle, with_claim) (inl has)
    | inl waits ↦ rw (waits, with_claim) (keeps _ has)
  ]

  pick_name-IsSaved :
      (o : Option ℕ) (p : Page)
      → p.parts q.id ≡ some bytes
      → (dest : String) × IsSaved q.id bytes dest (pick_name w faults now q o p)
  pick_name-IsSaved none p has = (q.dest, with_claim-IsSaved q.dest _ p has (λ r k. inl k))
  pick_name-IsSaved (some i) p has =
      (w.numbered q.dest i, with_claim-IsSaved _ _ p has (λ r k. resolve-IsSaved _ false r k))

abbrev pub discards : Answer → Bool
discards (keep_both bad) = false
discards replace = false
discards (cancel fails) = true

-- Whatever fails: an answer other than Cancel leaves the bytes of the download in its part file, or
-- moves all of them to a path.
pub answer_prompt-IsSaved :
    (w : World) (f : MoveFaults) (t : ℕ) (q : Prompt) (a : Answer) (p : Page) (bytes : Contents)
    → p.parts q.id ≡ some bytes
    → discards a ≡ false
    → (dest : String) × IsSaved q.id bytes dest (answer_prompt w f t q a p)
unfolding answer_prompt
answer_prompt-IsSaved w f t q (keep_both bad) p bytes has keeps =
    pick_name-IsSaved w f t q bytes (unique_download_path (look_up w q.dest bad p)) p has
answer_prompt-IsSaved w f t q replace p bytes has keeps = (
  q.dest,
  with_claim-IsSaved w f t q bytes q.dest _ p has
      (λ r k. resolve-IsSaved w f t q bytes q.dest true r k),
)
answer_prompt-IsSaved w f t q (cancel fails) p bytes has keeps = cc
