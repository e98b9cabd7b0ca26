-- ===== src/Core/Files.antt =====
-- The published file: MoveFile, ReplaceFile, UniqueDownloadPath and VerifyDownload of
-- internal/core/downloader.go. The paths are those of the part file and of the destination.
pub mod Moves
use lunefetch.Base.{
  ℕ, zero, suc, ◌+◌, if◌then◌else◌, List, Option, none, some, Bool, true, false, not, take,
}
use lunefetch.Base.Int64.{ℤ}
use lunefetch.Core.Progress.{eq_ℤ}

abbrev pub Contents : Type 0
Contents = List ℕ

-- What is at the source and at the destination.
pub record Paths : Type 0 where
  pub source : Option Contents
  pub dest : Option Contents

-- How a Link or a Rename fails but for the names: across file systems (EXDEV), or otherwise.
pub data LinkFault : Type 0 where
  cross_device other_fault : LinkFault

-- Which system calls fail. A copy that fails leaves some bytes; `cleanup` is the Remove of the
-- destination after a failed copy, whose error is ignored.
pub record MoveFaults : Type 0 where
  pub rename : Option LinkFault
  pub remove_dest : Bool
  pub link : Option LinkFault
  pub remove_source : Bool
  pub open_source : Bool
  pub create : Bool
  pub copy : Option ℕ
  pub cleanup : Bool
  pub close : Bool

pub data MoveError : Type 0 where
  destination_exists link_failed open_failed create_failed copy_failed close_failed : MoveError
  remove_failed rename_failed : MoveError

-- os.Remove(src), the last step of both ways.
abbrev pub drop_source : MoveFaults → Paths → Option MoveError × Paths
drop_source f p =
    if f.remove_source then (some remove_failed, p) else (none, record p { source = none })

abbrev pub clean_dest : MoveFaults → Paths → Paths
clean_dest f p = if f.cleanup then p else record p { dest = none }

abbrev pub close_copy : MoveFaults → Paths → Option MoveError × Paths
close_copy f p = if f.close then (some close_failed, clean_dest f p) else drop_source f p

abbrev pub copy_bytes : MoveFaults → Contents → Paths → Option ℕ → Option MoveError × Paths
copy_bytes f bytes p none = close_copy f (record p { dest = some bytes })
copy_bytes f bytes p (some k) =
    (some copy_failed, clean_dest f (record p { dest = some (take k bytes) }))

-- OpenFile with O_EXCL, and io.Copy.
abbrev pub copy_to : MoveFaults → Contents → Paths → Option Contents → Option MoveError × Paths
copy_to f bytes p (some old) = (some destination_exists, p)
copy_to f bytes p none = if f.create then (some create_failed, p) else copy_bytes f bytes p f.copy

abbrev pub copy_across : MoveFaults → Paths → Option Contents → Option MoveError × Paths
copy_across f p none = (some open_failed, p)
copy_across f p (some bytes) =
    if f.open_source then (some open_failed, p) else copy_to f bytes p p.dest

-- A Link that no fault stops fails on a missing source and on a taken destination.
abbrev pub link_dest :
    MoveFaults → Paths → Option Contents → Option Contents → Option MoveError × Paths
link_dest f p none d = (some link_failed, p)
link_dest f p (some bytes) (some old) = (some destination_exists, p)
link_dest f p (some bytes) none = drop_source f (record p { dest = some bytes })

abbrev pub link_or_copy : MoveFaults → Paths → Option LinkFault → Option MoveError × Paths
link_or_copy f p none = link_dest f p p.source p.dest
link_or_copy f p (some cross_device) = copy_across f p p.source
link_or_copy f p (some other_fault) = (some link_failed, p)

unfoldable pub move_file : MoveFaults → Paths → Option MoveError × Paths
move_file f p = link_or_copy f p f.link

-- os.Rename replaces the destination.
abbrev pub renamed : Paths → Option Contents → Option MoveError × Paths
renamed p none = (some rename_failed, p)
renamed p (some bytes) = (none, record { source = none; dest = some bytes })

abbrev pub rename_or_move : MoveFaults → Paths → Option LinkFault → Option MoveError × Paths
rename_or_move f p none = renamed p p.source
rename_or_move f p (some other_fault) = (some rename_failed, p)
rename_or_move f p (some cross_device) =
    if f.remove_dest
    then (some remove_failed, p)
    else link_or_copy f (record p { dest = none }) f.link

unfoldable pub replace_file : MoveFaults → Paths → Option MoveError × Paths
replace_file f p = rename_or_move f p f.rename

-- What Lstat says of a name.
pub data Lookup : Type 0 where
  absent present broken : Lookup

-- The search from a number on: the first free name, by its number, or `none` for an error. The name
-- 0 is the destination itself, and the name `i` is `stem (i).ext`.
unfoldable pub first_free : ℕ → ℕ → (ℕ → Lookup) → Option ℕ
first_free zero i look = none
first_free (suc left) i look = elim (look i) [
  | absent ↦ some i
  | broken ↦ none
  | present ↦ first_free left (i + 1) look
]

-- The destination, and the numbers 1 to 9999.
unfoldable pub unique_download_path : (ℕ → Lookup) → Option ℕ
unfolding first_free
unique_download_path look = first_free 10000 0 look

-- The size that Stat reports, or `none` if it fails; `true` is success.
unfoldable pub verify_download : Option ℤ → ℤ → Bool
verify_download none expected = false
verify_download (some size) expected = eq_ℤ size expected
