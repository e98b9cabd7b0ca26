-- ===== src/Filecat.antt =====
-- internal/filecat/category.go: the category of a file by its extension.
use Prim.Native.Char.{code}
use lunefetch.Base.{ℕ, ◌+◌, ◌==◌, if◌then◌else◌, List, [], ◌∷◌, ◌++◌, ◌&&◌, leb, ltb, map, String}
use lunefetch.Core.Names.{Text, same_text, any_of}

-- The code points of a text.
abbrev pub codes : String → Text
codes String.[] = []
codes (String.◌∷◌ c s) = code c ∷ codes s

pub data Category : Type 0 where
  media document compressed program other : Category

abbrev pub category_name : Category → String
category_name media = "Media"
category_name document = "Documents"
category_name compressed = "Compressed"
category_name program = "Programs"
category_name other = "Other"

-- In the order of the display.
abbrev pub all : List Category
all = compressed ∷ document ∷ media ∷ program ∷ other ∷ []

abbrev pub tagged : Category → List String → List (String × Category)
tagged c [] = []
tagged c (e ∷ es) = (e, c) ∷ tagged c es

abbrev pub ext_map : List (String × Category)
ext_map =
    tagged media (
      ".mp4" ∷ ".mkv" ∷ ".avi" ∷ ".mov" ∷ ".wmv" ∷ ".flv" ∷ ".webm" ∷ ".m4v" ∷ ".mpg" ∷ ".mpeg"
      ∷ ".3gp" ∷ ".ts" ∷ ".mp3" ∷ ".flac" ∷ ".aac" ∷ ".ogg" ∷ ".wav" ∷ ".wma" ∷ ".m4a" ∷ ".opus"
      ∷ ".aiff" ∷ ".alac" ∷ ".jpg" ∷ ".jpeg" ∷ ".png" ∷ ".gif" ∷ ".bmp" ∷ ".webp" ∷ ".tiff" ∷ ".tif"
      ∷ ".svg" ∷ ".ico" ∷ ".heic" ∷ ".raw" ∷ [])
    ++ (tagged document (
          ".pdf" ∷ ".doc" ∷ ".docx" ∷ ".xls" ∷ ".xlsx" ∷ ".ppt" ∷ ".pptx" ∷ ".odt" ∷ ".ods" ∷ ".odp"
          ∷ ".txt" ∷ ".md" ∷ ".epub" ∷ ".mobi" ∷ ".csv" ∷ [])
        ++ (tagged compressed (
              ".zip" ∷ ".rar" ∷ ".7z" ∷ ".tar" ∷ ".gz" ∷ ".bz2" ∷ ".xz" ∷ ".tgz" ∷ ".tbz2" ∷ ".iso"
              ∷ ".dmg" ∷ [])
            ++ tagged program (
                ".exe" ∷ ".msi" ∷ ".deb" ∷ ".rpm" ∷ ".appimage" ∷ ".apk" ∷ ".pkg" ∷ ".run" ∷ ".sh"
                ∷ ".jar" ∷ [])))

-- strings.ToLower, rune by rune; `beyond` are the runes beyond ASCII.
abbrev pub to_lower : (ℕ → ℕ) → ℕ → ℕ
to_lower beyond c = if ltb c 0x80 then if leb b'A' c && leb c b'Z' then c + 32 else c else beyond c

-- The text from its last dot on.
unfoldable pub ext_of : Text → Text
unfolding any_of
ext_of [] = []
ext_of (c ∷ cs) =
    let rest = ext_of cs in
    if any_of (λ d. d == b'.') cs then rest else if c == b'.' then c ∷ cs else []

unfoldable pub look_up_ext : Text → List (String × Category) → Category
unfolding same_text
look_up_ext ext [] = other
look_up_ext ext ((e, c) ∷ es) = if same_text ext (codes e) then c else look_up_ext ext es

unfoldable pub from_filename : (ℕ → ℕ) → Text → Category
unfolding ext_of look_up_ext
from_filename beyond name = look_up_ext (map (to_lower beyond) (ext_of name)) ext_map

-- strings.IndexByte and a cut before it, and what is behind strings.LastIndexByte.
unfoldable pub cut_at : ℕ → Text → Text
cut_at sep [] = []
cut_at sep (c ∷ cs) = if c == sep then [] else c ∷ cut_at sep cs

unfoldable pub behind_last : ℕ → Text → Text
unfolding any_of
behind_last sep [] = []
behind_last sep (c ∷ cs) =
    let rest = behind_last sep cs in
    if any_of (λ d. d == sep) cs then rest else if c == sep then cs else c ∷ cs

unfoldable pub from_url : (ℕ → ℕ) → Text → Category
unfolding cut_at behind_last from_filename
from_url beyond url = from_filename beyond (behind_last b'/' (cut_at b'#' (cut_at b'?' url)))
