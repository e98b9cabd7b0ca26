-- ===== src/Examples/SettingsRuns.antt =====
-- internal/config on concrete inputs.
use lunefetch.Base.{ℕ, ◌≡◌, refl, List, [], ◌∷◌, Option, none, some, false}
use lunefetch.Config.{default, ProxyUrl, validate, Disk, Faults, save}
use lunefetch.Config.Limits.{IsUsable, validate-IsUsable}
use lunefetch.Config.Saving.{IsSafe, save-IsSafe}

abbrev no_proxy : List ℕ → Option ProxyUrl
no_proxy _ = none

default-valid : validate no_proxy (default (47 ∷ [])) ≡ none
unfolding validate default
default-valid = refl

validate-IsUsable_example : IsUsable (default (47 ∷ []))
validate-IsUsable_example = validate-IsUsable no_proxy (default (47 ∷ [])) default-valid

-- The write stops after one byte.
abbrev full_disk : Faults
full_disk = record {
  mkdir = false;
  create = false;
  chmod = false;
  write = some 1;
  sync = false;
  close = false;
  rename = false;
}

abbrev old_file : Disk
old_file = record { target = some (1 ∷ []); temp = none }

save-IsSafe_example :
    IsSafe
      (some (1 ∷ []))
      (some (2 ∷ 3 ∷ []))
      (save no_proxy (default (47 ∷ [])) (some (2 ∷ 3 ∷ [])) full_disk old_file)
save-IsSafe_example =
    save-IsSafe no_proxy (default (47 ∷ [])) (some (2 ∷ 3 ∷ [])) full_disk old_file
