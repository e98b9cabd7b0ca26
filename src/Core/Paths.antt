-- ===== src/Core/Paths.antt =====
-- SafeDownloadPath and SafeSaveDir of internal/core/downloader.go, with what they use of `path/filepath`
-- on Unix. An absolute path that is clean is the list of its components.
pub mod Within
pub mod Joined
use lunefetch.Base.{
  ℕ, ◌==◌, if◌then◌else◌, List, [], ◌∷◌, ◌++◌, Option, none, some, Bool, true, false, ◌&&◌, ◌||◌,
  ltb, leb, contains,
}
use lunefetch.Core.ContentRange.{split}
use lunefetch.Core.Names.{Text, same_text, dot, dot_dot, any_of, validate_filename}

abbrev pub Components : Type 0
Components = List Text

-- The components without the last one.
unfoldable pub parent : Components → Components
parent [] = []
parent (c ∷ []) = []
parent (c ∷ d ∷ cs) = c ∷ parent (d ∷ cs)

-- filepath.Clean of a rooted path: a component at a time, after those of `done`.
abbrev pub enter : Components → Text → Components
enter done c =
    if same_text c [] || same_text c dot
    then done
    else if same_text c dot_dot
    then parent done
    else done ++ c ∷ []

unfoldable pub clean_from : Components → Components → Components
clean_from done [] = done
clean_from done (c ∷ cs) = clean_from (enter done c) cs

abbrev pub components : Text → Components
components path = split b'/' path

-- filepath.Abs: `cwd` is what os.Getwd answers.
abbrev pub is_abs : Text → Bool
is_abs [] = false
is_abs (c ∷ cs) = c == b'/'

abbrev pub from_cwd : Option Text → Text → Option Components
from_cwd none path = none
from_cwd (some dir) path = some (clean_from [] (components dir ++ components path))

unfoldable pub abs : Option Text → Text → Option Components
unfolding clean_from
abs cwd path = if is_abs path then some (clean_from [] (components path)) else from_cwd cwd path

-- filepath.Join of a clean path and a text.
unfoldable pub join : Components → Text → Components
unfolding clean_from
join root name = clean_from root (components name)

-- One ".." for each component.
abbrev pub ups : Components → Components
ups [] = []
ups (b ∷ bs) = dot_dot ∷ ups bs

-- filepath.Rel of two clean rooted paths; no component stands for ".".
unfoldable pub rel : Components → Components → Components
rel [] target = target
rel (b ∷ bs) [] = ups (b ∷ bs)
rel (b ∷ bs) (t ∷ ts) = if same_text b t then rel bs ts else ups (b ∷ bs) ++ t ∷ ts

-- rel == ".." || strings.HasPrefix(rel, "../")
abbrev pub escapes : Components → Bool
escapes [] = false
escapes (c ∷ cs) = same_text c dot_dot

abbrev pub confined : Components → Option Components → Option Components
confined root none = none
confined root (some dst) = if escapes (rel root dst) then none else some dst

abbrev pub in_root : Option Components → (Components → Option Components) → Option Components
in_root none f = none
in_root (some root) f = confined root (f root)

abbrev pub placed : Option Text → Text → Option Text → Option Components
placed cwd root none = none
placed cwd root (some name) = in_root (abs cwd root) (λ r. some (join r name))

unfoldable pub safe_download_path : (ℕ → ℕ) → Option Text → Text → Text → Option Components
unfolding validate_filename abs join rel
safe_download_path other cwd root filename = placed cwd root (validate_filename other filename)

-- unicode.IsSpace, which strings.TrimSpace goes by.
unfoldable pub is_space : ℕ → Bool
unfolding contains
is_space c =
    (leb 9 c && leb c 13)
    || c == 32
    || c == 0x85
    || c == 0xa0
    || c == 0x1680
    || (leb 0x2000 c && leb c 0x200a)
    || contains (0x2028 ∷ 0x2029 ∷ 0x202f ∷ 0x205f ∷ 0x3000 ∷ []) c

unfoldable pub is_blank : Text → Bool
unfolding is_space
is_blank [] = true
is_blank (c ∷ cs) = if is_space c then is_blank cs else false

abbrev pub redirected : Option Text → Text → Option Components → Option Components
redirected cwd dir none = none
redirected cwd dir (some r) =
    if is_blank dir
    then some r
    else if any_of (λ c. c == 0) dir
    then none
    else confined r (abs cwd dir)

unfoldable pub safe_save_dir : Option Text → Text → Text → Option Components
unfolding abs is_blank any_of rel
safe_save_dir cwd root dir = redirected cwd dir (abs cwd root)
