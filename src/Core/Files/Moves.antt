-- ===== src/Core/Files/Moves.antt =====
-- A move never overwrites a file and never loses the download.
use lunefetch.Base.{
  ℕ, zero, suc, ◌+◌, ◌≤◌, ◌<◌, ◌≡◌, ◌≢◌, refl, sym, ap, ◌∙◌, Option, none, some, take, Bool-cases,
  inl, inr, ◌⊎◌, arith, dec_lt,
}
use mathlib.Core.Option.{some-injective}
use lunefetch.Core.Files.{
  Contents, Paths, LinkFault, cross_device, other_fault, MoveFaults, MoveError, drop_source,
  clean_dest, copy_bytes, copy_to, copy_across, link_or_copy, move_file, rename_or_move,
  replace_file, Lookup, absent, present, broken, first_free, unique_download_path,
}

-- On success the bytes are at the destination alone; on an error the source still has them.
abbrev pub IsKept : Contents → Option MoveError × Paths → Type 0
IsKept bytes (none, p) = (p.dest ≡ some bytes) × (p.source ≡ none)
IsKept bytes (some e, p) = p.source ≡ some bytes

-- A destination that was there is as it was, and the move failed.
abbrev pub IsSpared : Option Contents → Option MoveError × Paths → Type 0
IsSpared none o = Unit
IsSpared (some old) (e, p) = (e ≢ none) × (p.dest ≡ some old)

module _ (f : MoveFaults) (bytes : Contents) where
  drop_source-IsKept :
      (d : Option Contents)
      → d ≡ some bytes
      → IsKept bytes (drop_source f (record { source = some bytes; dest = d }))
  drop_source-IsKept d e = elim (Bool-cases f.remove_source) [
    | inl stuck ↦ simp stuck refl
    | inr gone ↦ simp gone (e, refl)
  ]

  clean_dest-source :
      (d : Option Contents)
      → (clean_dest f (record { source = some bytes; dest = d })).source ≡ some bytes
  clean_dest-source d = elim (Bool-cases f.cleanup) [
    | inl stuck ↦ simp stuck refl
    | inr gone ↦ simp gone refl
  ]

  copy_bytes-IsKept :
      (d : Option Contents) (o : Option ℕ)
      → IsKept bytes (copy_bytes f bytes (record { source = some bytes; dest = d }) o)
  copy_bytes-IsKept d (some k) = clean_dest-source (some (take k bytes))
  copy_bytes-IsKept d none = elim (Bool-cases f.close) [
    | inl stuck ↦ simp stuck (clean_dest-source (some bytes))
    | inr closed ↦ simp closed (drop_source-IsKept (some bytes) refl)
  ]

  copy_across-IsKept :
      (d : Option Contents)
      → IsKept bytes (copy_across f (record { source = some bytes; dest = d }) (some bytes))
  copy_across-IsKept d = elim (Bool-cases f.open_source) [
    | inl stuck ↦ simp stuck refl
    | inr opened ↦ simp opened (created d)
  ]
    where
      created :
          (d : Option Contents)
          → IsKept bytes (copy_to f bytes (record { source = some bytes; dest = d }) d)
      created (some old) = refl
      created none = elim (Bool-cases f.create) [
        | inl stuck ↦ simp stuck refl
        | inr made ↦ simp made (copy_bytes-IsKept none f.copy)
      ]

  link_or_copy-IsKept :
      (d : Option Contents) (o : Option LinkFault)
      → IsKept bytes (link_or_copy f (record { source = some bytes; dest = d }) o)
  link_or_copy-IsKept (some old) none = refl
  link_or_copy-IsKept none none = drop_source-IsKept (some bytes) refl
  link_or_copy-IsKept d (some cross_device) = copy_across-IsKept d
  link_or_copy-IsKept d (some other_fault) = refl

  link_or_copy-IsSpared :
      (d : Option Contents) (o : Option LinkFault)
      → IsSpared d (link_or_copy f (record { source = some bytes; dest = d }) o)
  link_or_copy-IsSpared none o = tt
  link_or_copy-IsSpared (some old) none = (λ h. cc, refl)
  link_or_copy-IsSpared (some old) (some other_fault) = (λ h. cc, refl)
  link_or_copy-IsSpared (some old) (some cross_device) = elim (Bool-cases f.open_source) [
    | inl stuck ↦ simp stuck (λ h. cc, refl)
    | inr opened ↦ simp opened (λ h. cc, refl)
  ]

-- Whichever system calls fail, for a download at the source: MoveFile and ReplaceFile end with the
-- whole of it at the destination and nothing at the source, or with an error and all of it still at
-- the source; and MoveFile fails and leaves the destination alone where there is one already.
pub moves-IsKept :
    (f : MoveFaults) (bytes : Contents) (dest : Option Contents)
    → let p : Paths = record { source = some bytes; dest = dest } in
      IsKept bytes (move_file f p) × IsKept bytes (replace_file f p) × IsSpared dest (move_file f p)
unfolding move_file replace_file
moves-IsKept f bytes dest = (
  link_or_copy-IsKept f bytes dest f.link,
  replaced f.rename,
  link_or_copy-IsSpared f bytes dest f.link,
)
  where
    replaced :
        (o : Option LinkFault)
        → IsKept bytes (rename_or_move f (record { source = some bytes; dest = dest }) o)
    replaced none = (refl, refl)
    replaced (some other_fault) = refl
    replaced (some cross_device) = elim (Bool-cases f.remove_dest) [
      | inl stuck ↦ simp stuck refl
      | inr gone ↦ simp gone (link_or_copy-IsKept f bytes none f.link)
    ]

between : (i j k : ℕ) → i ≡ j → i ≤ k → k < j → ⊥
between i j k e a b = omega arith

Lookup-cases : (l : Lookup) → (l ≡ absent) ⊎ ((l ≡ broken) ⊎ (l ≡ present))
Lookup-cases absent = inl refl
Lookup-cases broken = inr (inl refl)
Lookup-cases present = inr (inr refl)

first_free_lem :
    (left i j : ℕ) (look : ℕ → Lookup)
    → first_free left i look ≡ some j
    → (look j ≡ absent) × (j < i + left) × ((k : ℕ) → i ≤ k → k < j → look k ≡ present)
unfolding first_free
first_free_lem zero i j look h = cc
first_free_lem (suc left) i j look h = elim (Lookup-cases (look i)) [
  | inl e ↦
      let same : i ≡ j = some-injective _ _ (rw (e, first_free) at h) in
      (ap look (sym same) ∙ e, omega arith, λ k a b. elim (between i j k same a b) [ ])
  | inr (inl e) ↦ cc (rw (e, first_free) at h)
  | inr (inr e) ↦
      let (free, few, taken) = first_free_lem left (i + 1) j look (rw (e, first_free) at h) in
      (
        free,
        omega arith,
        λ k a b. elim (dec_lt i k) [
          | yes later ↦ taken k (omega arith) b
          | no same ↦ ap look (omega arith) ∙ e
        ],
      )
]

-- A name that UniqueDownloadPath answers is free, it is one of the ten thousand, and all those before
-- it are taken.
pub unique_download_path-free :
    (look : ℕ → Lookup) (j : ℕ)
    → unique_download_path look ≡ some j
    → (look j ≡ absent) × (j < 10000) × ((k : ℕ) → k < j → look k ≡ present)
unfolding unique_download_path
unique_download_path-free look j h =
    let (free, few, taken) = first_free_lem 10000 0 j look h in
    (free, omega arith, λ k b. taken k (omega arith) b)
