-- ===== src/Core/Info/Sound.antt =====
-- What GetFileInfo of internal/core/downloader.go answers can be downloaded.
use lunefetch.Base.{ℕ, ◌<◌, ◌≤◌, ◌≡◌, some, true, false, String, text_eq, ◌⊎◌}
use lunefetch.Base.Int64.{pos, pos_part}
use lunefetch.Filecat.{codes}
use lunefetch.Core.Names.{validate_filename}
use lunefetch.Core.Info.{FileInfo, Head}

-- A name that ValidateFilename admits, or the default.
abbrev pub IsName : (ℕ → ℕ) → String → Type 0
IsName other name = (validate_filename other (codes name) ≡ some (codes name)) ⊎ (name ≡ "download")

-- The size is known and positive, or 0 for unknown; ranges are used for a known size only.
pub record IsSound (other : ℕ → ℕ) (h : Head) (i : FileInfo) : Type 0 where
  pub sized : (i.size ≡ pos (pos_part i.size))
  pub ranged : (i.supports_range ≡ false) ⊎ (0 < pos_part i.size)
  pub known : (pos_part i.size ≡ 0) ⊎ (text_eq h.content_length "" ≡ false)
  pub successful : (200 ≤ h.status) × (h.status < 300)
  pub of_file : (text_eq h.media_type "text/html" ≡ false) ⊎ (h.is_attachment ≡ true)
  pub filename : IsName other i.filename
