-- ===== src/Config/Saving.antt =====
-- Save never leaves a broken configuration file.
use lunefetch.Base.{ℕ, ◌≡◌, refl, List, [], ◌∷◌, Option, none, some, All, ◌⊎◌, inl, inr, Bool-cases}
use lunefetch.Config.{
  Config, ConfigError, ProxyUrl, Disk, Faults, SaveRun, publish, write_temp, save_data,
  save_checked, validate, save,
}

-- The file has its old contents or all of the new ones.
abbrev pub IsSound : Option (List ℕ) → Option (List ℕ) → Disk → Type 0
IsSound old new d = (d.target ≡ old) ⊎ (d.target ≡ new)

-- So it is at each moment; and at the end it has the new ones exactly if Save succeeded.
abbrev pub IsSafe : Option (List ℕ) → Option (List ℕ) → SaveRun → Type 0
IsSafe old new (none, []) = ⊥
IsSafe old new (some e, []) = ⊥
IsSafe old new (none, d ∷ ds) = (d.target ≡ new) × All (IsSound old new) (d ∷ ds)
IsSafe old new (some e, d ∷ ds) = (d.target ≡ old) × All (IsSound old new) (d ∷ ds)

module _ (d : Disk) (new : List ℕ) where
  publish-IsSafe :
      (f : Faults) (seen : List Disk)
      → All (IsSound d.target (some new)) seen
      → IsSafe d.target (some new) (publish f new (record d { temp = some new }) seen)
  publish-IsSafe f seen h = elim (Bool-cases f.sync) [
    | inl e ↦ simp e (refl, (inl refl, (inl refl, h)))
    | inr e ↦ elim (Bool-cases f.close) [
      | inl k ↦ simp (e, k) (refl, (inl refl, (inl refl, h)))
      | inr k ↦ elim (Bool-cases f.rename) [
        | inl l ↦ simp (e, k, l) (refl, (inl refl, (inl refl, h)))
        | inr l ↦ simp (e, k, l) (refl, (inr refl, (inl refl, h)))
      ]
    ]
  ]

  write_temp-IsSafe :
      (f : Faults) (seen : List Disk) (o : Option ℕ)
      → All (IsSound d.target (some new)) seen
      → IsSafe d.target (some new) (write_temp f new (record d { temp = some [] }) seen o)
  write_temp-IsSafe f seen none h =
      publish-IsSafe f (record d { temp = some [] } ∷ seen) (inl refl, h)
  write_temp-IsSafe f seen (some k) h = (refl, (inl refl, (inl refl, (inl refl, h))))

  save_data-IsSafe : (f : Faults) → IsSafe d.target (some new) (save_data f (some new) d)
  save_data-IsSafe f = elim (Bool-cases f.create) [
    | inl e ↦ simp e (refl, (inl refl, tt))
    | inr e ↦ elim (Bool-cases f.chmod) [
      | inl k ↦ simp (e, k) (refl, (inl refl, (inl refl, (inl refl, tt))))
      | inr k ↦ simp (e, k) (write_temp-IsSafe f (d ∷ []) f.write (inl refl, tt))
    ]
  ]

save_checked-IsSafe :
    (f : Faults) (d : Disk) (new : Option (List ℕ)) (o : Option ConfigError)
    → IsSafe d.target new (save_checked f new d o)
save_checked-IsSafe f d new (some e) = (refl, (inl refl, tt))
save_checked-IsSafe f d new none = elim (Bool-cases f.mkdir) [
  | inl e ↦ simp e (refl, (inl refl, tt))
  | inr e ↦ simp e (marshalled new)
]
  where
    marshalled : (o : Option (List ℕ)) → IsSafe d.target o (save_data f o d)
    marshalled none = (refl, (inl refl, tt))
    marshalled (some bytes) = save_data-IsSafe d bytes f

-- Whichever system call of Save fails: at each moment the configuration file has its old contents
-- or all of the new ones, and when Save returns it has the new ones on success and the old ones on an
-- error.
pub save-IsSafe :
    (parse : List ℕ → Option ProxyUrl) (c : Config) (marshalled : Option (List ℕ)) (f : Faults)
    (d : Disk)
    → IsSafe d.target marshalled (save parse c marshalled f d)
unfolding save
save-IsSafe parse c marshalled f d = save_checked-IsSafe f d marshalled (validate parse c)
