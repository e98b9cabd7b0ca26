-- ===== src/Examples/FilesRuns.antt =====
-- File moves and the address policy of internal/core on concrete inputs.
use lunefetch.Base.{ℕ, ◌<◌, ◌≡◌, refl, [], ◌∷◌, some, true, false, ◌==◌, if◌then◌else◌, All}
use lunefetch.Core.Files.{
  Paths, cross_device, MoveFaults, move_file, replace_file, Lookup, absent, present, first_free,
  unique_download_path,
}
use lunefetch.Core.Files.Moves.{IsKept, IsSpared, moves-IsKept, unique_download_path-free}
use lunefetch.Core.Address.{
  Addr, v4, v6, ip4, ip6, AddressPolicy, unmap, blocked, connected, any_blocked, dial_each,
  dial_context,
}
use lunefetch.Core.Address.Policy.{dial_context-screened}

-- The destination is on another file system, and the copy stops after one byte.
abbrev full_disk : MoveFaults
full_disk = record {
  rename = some cross_device;
  remove_dest = false;
  link = some cross_device;
  remove_source = false;
  open_source = false;
  create = false;
  copy = some 1;
  cleanup = false;
  close = false;
}

moves-IsKept_example :
    let p : Paths = record { source = some (1 ∷ 2 ∷ []); dest = some (9 ∷ []) } in
    IsKept (1 ∷ 2 ∷ []) (move_file full_disk p)
    × IsKept (1 ∷ 2 ∷ []) (replace_file full_disk p)
    × IsSpared (some (9 ∷ [])) (move_file full_disk p)
moves-IsKept_example = moves-IsKept full_disk (1 ∷ 2 ∷ []) (some (9 ∷ []))

-- The destination and the first number are taken.
abbrev two_taken : ℕ → Lookup
two_taken i = if i == 0 then present else if i == 1 then present else absent

two_taken-next : unique_download_path two_taken ≡ some 2
unfolding unique_download_path first_free
two_taken-next = refl

unique_download_path-free_example :
    (two_taken 2 ≡ absent) × (2 < 10000) × ((k : ℕ) → k < 2 → two_taken k ≡ present)
unique_download_path-free_example = unique_download_path-free two_taken 2 two_taken-next

abbrev public_only : AddressPolicy
public_only = record { allow_local = false; is_proxy = false }

-- 93.184.216.34
abbrev a_server : Addr
a_server = v4 (ip4 93 184 216 34)

a_server-dialed : dial_context public_only (some (a_server ∷ [])) (λ a. true) ≡ connected a_server
unfolding dial_context any_blocked blocked unmap dial_each
a_server-dialed = refl

dial_context-screened_example :
    (false ≡ false)
    × (blocked public_only a_server ≡ false)
    × (true ≡ true)
    × All (λ b. blocked public_only b ≡ false) (a_server ∷ [])
dial_context-screened_example =
    dial_context-screened public_only (a_server ∷ []) (λ a. true) a_server a_server-dialed

-- The metadata endpoint with a zone, where local hosts are allowed.
zoned_metadata :
    blocked (record { allow_local = true; is_proxy = false }) (v6 (ip6 64768 3778 0 596) 3) ≡ false
unfolding blocked unmap
zoned_metadata = refl
