-- ===== src/Intake/Names.antt =====
-- The loop of HandleAdd in internal/ui/layout/desktop.go that looks for a name: it ends, with a free one.
use text.Mathlib.TextEquality.{eq_iff}
use lunefetch.Base.{
  ℕ, zero, suc, ◌+◌, ◌≤◌, ◌<◌, ◌≡◌, ◌⊎◌, refl, sym, ap, ◌∙◌, if◌then◌else◌, List, [], ◌∷◌, some,
  Bool, false, ◌&&◌, length, ltb, arith, Bool-cases, inl, inr, String, text_eq,
}
use lunefetch.Storage.Record.{DownloadRecord}
use lunefetch.Storage.Sql.{Conn, select}
use lunefetch.Storage.Downloads.{is_live, filename_exists, found_some}
use lunefetch.Queue.Conserve.{query_eq}
use lunefetch.Intake.{Context, numbered, free_name, unique_name}

abbrev has_name : String → DownloadRecord → Bool
has_name s r = text_eq r.filename s && is_live r

abbrev taken : String → List DownloadRecord → Bool
taken s rs = ltb 0 (length (select (has_name s) rs))

filename_exists_lem :
    (s : String) (c : Conn) → c.faults ≡ [] → filename_exists s c ≡ (taken s c.db.downloads, c)
unfolding filename_exists
filename_exists_lem s c fine =
    ap found_some (query_eq (λ db. select (has_name s) db.downloads) c fine)

abbrev one_if : Bool → ℕ
one_if b = if b then 1 else 0

module _ (seq : ℕ → String) where
  -- How many of the tries from the one numbered `j` are taken, and how many a row takes.
  hits : ℕ → ℕ → List DownloadRecord → ℕ
  hits zero j rs = 0
  hits (suc n) j rs = one_if (taken (seq j) rs) + hits n (suc j) rs

  row_hits : ℕ → ℕ → DownloadRecord → ℕ
  row_hits zero j r = 0
  row_hits (suc n) j r = one_if (text_eq r.filename (seq j)) + row_hits n (suc j) r

  taken-cons :
      (s : String) (r : DownloadRecord) (rs : List DownloadRecord)
      → one_if (taken s (r ∷ rs)) ≤ one_if (text_eq r.filename s) + one_if (taken s rs)
  unfolding select
  taken-cons s r rs = ground arith

  hits-cons :
      (n j : ℕ) (r : DownloadRecord) (rs : List DownloadRecord)
      → hits n j (r ∷ rs) ≤ row_hits n j r + hits n j rs
  unfolding hits row_hits
  hits-cons zero j r rs = omega arith
  hits-cons (suc n) j r rs = omega (arith, taken-cons (seq j) r rs, hits-cons n (suc j) r rs)

  hits-nil : (n j : ℕ) → hits n j [] ≡ 0
  unfolding hits select
  hits-nil zero j = refl
  hits-nil (suc n) j = omega (arith, hits-nil n (suc j))

  module _ (apart : (i j : ℕ) → seq i ≡ seq j → i ≡ j) where
    row_hits-none :
        (n i j : ℕ) (r : DownloadRecord) → r.filename ≡ seq i → i < j → row_hits n j r ≡ 0
    unfolding row_hits
    row_hits-none zero i j r e lt = refl
    row_hits-none (suc n) i j r e lt = elim (Bool-cases (text_eq r.filename (seq j))) [
      | inl same ↦
          let again : i ≡ j = apart i j (sym e ∙ (eq_iff r.filename (seq j)).0 same) in
          absurd (omega arith)
      | inr other ↦ rw other (omega (arith, row_hits-none n i (suc j) r e (omega arith)))
    ]

    row_hits-le : (n j : ℕ) (r : DownloadRecord) → row_hits n j r ≤ 1
    unfolding row_hits
    row_hits-le zero j r = omega arith
    row_hits-le (suc n) j r = elim (Bool-cases (text_eq r.filename (seq j))) [
      | inl same ↦ rw same (
          omega
            (arith, row_hits-none n j (suc j) r ((eq_iff r.filename (seq j)).0 same) (omega arith)))
      | inr other ↦ rw other (omega (arith, row_hits-le n (suc j) r))
    ]

    hits-le : (n j : ℕ) (rs : List DownloadRecord) → hits n j rs ≤ length rs
    hits-le n j [] = omega (arith, hits-nil n j)
    hits-le n j (r ∷ rs) = omega (arith, hits-cons n j r rs, row_hits-le n j r, hits-le n j rs)

  -- The loop stops at a free name, or all its tries are taken.
  free_name-cases :
      (n j : ℕ) (c : Conn)
      → c.faults ≡ []
      → ((i : ℕ) × (free_name seq n (suc j) (seq j) c ≡ (some (seq i), c))
          × (taken (seq i) c.db.downloads ≡ false))
        ⊎ (hits n j c.db.downloads ≡ n)
  unfolding free_name hits
  free_name-cases zero j c fine = inr refl
  free_name-cases (suc n) j c fine = elim (Bool-cases (taken (seq j) c.db.downloads)) [
    | inr free ↦ inl (j, rw (filename_exists_lem (seq j) c fine, free), free)
    | inl used ↦ elim (free_name-cases n (suc j) c fine) [
      | inl (i, e, free) ↦ inl (i, rw (filename_exists_lem (seq j) c fine, used) e, free)
      | inr all ↦ inr (rw used (omega (arith, all)))
    ]
  ]

-- The name itself, and then the numbered ones.
abbrev pub tries : Context → String → ℕ → String
tries x name zero = name
tries x name (suc i) = numbered x name (suc i)

same_tries :
    (x : Context) (name : String) (n i : ℕ) (s : String) (c : Conn)
    → free_name (numbered x name) n (suc i) s c ≡ free_name (tries x name) n (suc i) s c
unfolding free_name
same_tries x name zero i s c = refl
same_tries x name (suc n) i s c = elim (Bool-cases (filename_exists s c).0) [
  | inl used ↦
      rw used (same_tries x name n (suc i) (numbered x name (suc i)) (filename_exists s c).1)
  | inr free ↦ rw free
]

-- Where the numbered names of a file differ from each other and from its own: with no database error,
-- HandleAdd finds a name within one try more than there are rows; it is the first name or a numbered
-- one, no live download has it, and the tables are as they were.
pub unique_name-free :
    (x : Context) (name : String) (c : Conn)
    → c.faults ≡ []
    → ((i j : ℕ) → tries x name i ≡ tries x name j → i ≡ j)
    → (i : ℕ) × (unique_name x name c ≡ (some (tries x name i), c))
      × (length (select (λ r. text_eq r.filename (tries x name i) && is_live r) c.db.downloads) ≡ 0)
unfolding unique_name
unique_name-free x name c fine apart =
    elim (free_name-cases (tries x name) (suc (length c.db.downloads)) 0 c fine) [
      | inl (i, e, free) ↦
          (i, same_tries x name (suc (length c.db.downloads)) 0 name c ∙ e, ground (arith, free))
      | inr all ↦ absurd (
          omega (
            arith,
            all,
            hits-le (tries x name) apart (suc (length c.db.downloads)) 0 c.db.downloads,
          ))
    ]
