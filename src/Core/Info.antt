-- ===== src/Core/Info.antt =====
-- GetFileInfo and extractFilename of internal/core/downloader.go: what the answer to a HEAD request says
-- of a file. The HTTP client, the media types of `mime` and the paths of `net/url` are arguments.
pub mod Sound
use lunefetch.Base.{
  ℕ, ◌==◌, if◌then◌else◌, Option, none, some, Bool, true, false, ◌&&◌, ◌||◌, not, ltb, leb, String,
  text_eq,
}
use lunefetch.Base.Int64.{ℤ, pos, ltb_ℤ}
use lunefetch.Filecat.{codes}
use lunefetch.Bridge.{Url, is_web}
use lunefetch.Core.Progress.{eq_ℤ}
use lunefetch.Core.ContentRange.{parse_int}
use lunefetch.Core.Names.{Text, validate_filename}

pub data InfoError : Type 0 where
  invalid_url blocked_url request_failed bad_status bad_length html_page empty_body : InfoError
  negative_length bad_disposition bad_filename : InfoError

pub data Outcome {ℓ} (A : Type ℓ) : Type ℓ where
  ok : A → Outcome A
  err : InfoError → Outcome A

pub record FileInfo : Type 0 where
  pub size : ℤ
  pub supports_range : Bool
  pub filename : String
  pub etag : String
  pub last_modified : String

-- The header Content-Disposition for extractFilename: none, one that mime cannot parse, or the
-- parameter `filename`, empty if it is absent.
pub data Disposition : Type 0 where
  no_header : Disposition
  unparsed : Disposition
  named : String → Disposition

-- The headers that are read, those of validators with their spaces trimmed. `is_attachment` tells
-- whether Content-Disposition has that type, and `url_name` is the last element of the path of the
-- URL, unescaped, or `none` if that fails.
pub record Head : Type 0 where
  pub status : ℕ
  pub content_length : String
  pub media_type : String
  pub is_attachment : Bool
  pub disposition : Disposition
  pub accept_ranges : String
  pub content_range : String
  pub etag : String
  pub last_modified : String
  pub url_name : Option String

-- ValidateFilename, which answers the name itself.
abbrev pub admitted : String → Option Text → Outcome String
admitted name none = err bad_filename
admitted name (some _) = ok name

unfoldable pub admit : (ℕ → ℕ) → String → Outcome String
unfolding validate_filename
admit other name = admitted name (validate_filename other (codes name))

unfoldable pub name_of_url : (ℕ → ℕ) → Option String → Outcome String
unfolding admit
name_of_url other none = ok "download"
name_of_url other (some name) =
    if text_eq name "" || text_eq name "." || text_eq name "/"
    then ok "download"
    else admit other name

unfoldable pub extract_filename : (ℕ → ℕ) → Disposition → Option String → Outcome String
unfolding admit name_of_url
extract_filename other no_header url_name = name_of_url other url_name
extract_filename other unparsed url_name = err bad_disposition
extract_filename other (named f) url_name =
    if text_eq f "" then name_of_url other url_name else admit other f

-- The size of the header Content-Length, 0 if it is absent.
unfoldable pub length_of : String → Outcome ℤ
unfolding parse_int
length_of header =
    if text_eq header ""
    then ok (pos 0)
    else elim (parse_int (codes header)) [ none ↦ err bad_length | some size ↦ ok size ]

abbrev pub info_of : Head → ℤ → String → FileInfo
info_of h size filename = record {
  size = size;
  supports_range =
      ltb_ℤ (pos 0) size && (text_eq h.accept_ranges "bytes" || not (text_eq h.content_range ""));
  filename = filename;
  etag = h.etag;
  last_modified = h.last_modified;
}

abbrev pub described : Head → ℤ → Outcome String → Outcome FileInfo
described h size (err e) = err e
described h size (ok filename) = ok (info_of h size filename)

-- The checks of the size and of the media type.
abbrev pub checked : (ℕ → ℕ) → Head → Outcome ℤ → Outcome FileInfo
checked other h (err e) = err e
checked other h (ok size) =
    if text_eq h.media_type "text/html" && not h.is_attachment
    then err html_page
    else if not (text_eq h.content_length "") && eq_ℤ size (pos 0)
    then err empty_body
    else if not (text_eq h.content_length "") && ltb_ℤ size (pos 0)
    then err negative_length
    else described h size (extract_filename other h.disposition h.url_name)

abbrev pub answered : (ℕ → ℕ) → Option Head → Outcome FileInfo
answered other none = err request_failed
answered other (some h) =
    if ltb h.status 200 || leb 300 h.status
    then err bad_status
    else checked other h (length_of h.content_length)

-- `allowed` is what validateHTTPURL says of the URL, `answer` the answer of the client, if any.
unfoldable pub get_file_info : (ℕ → ℕ) → Option Url → Bool → Option Head → Outcome FileInfo
unfolding extract_filename length_of
get_file_info other url allowed answer =
    if not (is_web url)
    then err invalid_url
    else if not allowed
    then err blocked_url
    else answered other answer
