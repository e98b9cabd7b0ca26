-- ===== src/Bridge.antt =====
-- How a download gets from the browser extension to the application: the native messaging host
-- (cmd/native-host/main.go) and the local API (internal/api/server.go). Texts are lists of bytes.
pub mod Delivery
pub mod Framing
use lunefetch.Base.{
  ℕ, ◌==◌, if◌then◌else◌, List, [], ◌∷◌, ◌++◌, Option, none, some, Bool, true, false, ◌&&◌, ◌||◌,
  not, length, contains,
}
use lunefetch.Core.ContentRange.{cut_prefix}

abbrev pub Bytes : Type 0
Bytes = List ℕ

unfoldable pub same_bytes : Bytes → Bytes → Bool
same_bytes [] [] = true
same_bytes [] (y ∷ ys) = false
same_bytes (x ∷ xs) [] = false
same_bytes (x ∷ xs) (y ∷ ys) = if x == y then same_bytes xs ys else false

abbrev is_empty : Bytes → Bool
is_empty [] = true
is_empty (x ∷ xs) = false

pub record DownloadRequest : Type 0 where
  pub url : Bytes
  pub filename : Bytes
  pub save_dir : Bytes

pub data Method : Type 0 where
  get post other : Method

-- The scheme of a parsed URL, and whether it has a host.
pub data Scheme : Type 0 where
  http https other_scheme : Scheme

pub record Url : Type 0 where
  pub scheme : Scheme
  pub has_host : Bool

-- What the code calls of the standard library: the media type of a Content-Type, in lower case and
-- without its parameters; the strict JSON decoder with its limit, which also tells whether more
-- follows; url.ParseRequestURI; filepath.Base and filepath.IsAbs.
pub record Reading : Type 0 where
  pub media_type : Bytes → Bytes
  pub decode : Bytes → Option (DownloadRequest × Bool)
  pub parse_uri : Bytes → Option Url
  pub base_name : Bytes → Bytes
  pub is_abs : Bytes → Bool

pub record Request : Type 0 where
  pub method : Method
  pub authorization : Bytes
  pub content_type : Bytes
  pub body : Bytes

-- "Bearer ", "application/json"
abbrev pub bearer : Bytes
bearer = 66 ∷ 101 ∷ 97 ∷ 114 ∷ 101 ∷ 114 ∷ 32 ∷ []

abbrev pub application_json : Bytes
application_json =
    97 ∷ 112 ∷ 112 ∷ 108 ∷ 105 ∷ 99 ∷ 97 ∷ 116 ∷ 105 ∷ 111 ∷ 110 ∷ 47 ∷ 106 ∷ 115 ∷ 111 ∷ 110 ∷ []

abbrev pub trimmed : Bytes → Option Bytes → Bytes
trimmed value none = value
trimmed value (some rest) = rest

unfoldable pub authorized : Bytes → Request → Bool
unfolding same_bytes cut_prefix
authorized token r =
    let got : Bytes = trimmed r.authorization (cut_prefix bearer r.authorization) in
    length got == length token && same_bytes got token

abbrev pub is_post : Method → Bool
is_post post = true
is_post _ = false

abbrev pub is_web : Option Url → Bool
is_web none = false
is_web (some u) =
    (elim u.scheme [ http ↦ true | https ↦ true | other_scheme ↦ false ]) && u.has_host

-- A hint of a name: a base name without NUL, `/` and `\`.
unfoldable pub admits_filename : Reading → Bytes → Bool
unfolding same_bytes contains
admits_filename lib name =
    is_empty name
    || (same_bytes (lib.base_name name) name
        && not (contains name 0 || contains name 47 || contains name 92))

-- A hint of a directory: absolute, and without NUL.
unfoldable pub admits_save_dir : Reading → Bytes → Bool
unfolding contains
admits_save_dir lib dir = is_empty dir || (lib.is_abs dir && not (contains dir 0))

-- The status of the answer, and what the handler was called with.
abbrev pub Answer : Type 0
Answer = ℕ × Option DownloadRequest

-- The checks on a decoded request, and the handler.
unfoldable pub handle_decoded :
    Reading → (DownloadRequest → Bool) → Option (DownloadRequest × Bool) → Answer
unfolding admits_filename admits_save_dir
handle_decoded lib handler none = (400, none)
handle_decoded lib handler (some (r, trailing)) =
    if trailing
    then (400, none)
    else if not (is_web (lib.parse_uri r.url))
    then (400, none)
    else if not (admits_filename lib r.filename)
    then (400, none)
    else if not (admits_save_dir lib r.save_dir)
    then (400, none)
    else if handler r
    then (202, some r)
    else (503, some r)

unfoldable pub handle_download : Reading → Bytes → (DownloadRequest → Bool) → Request → Answer
unfolding authorized same_bytes handle_decoded
handle_download lib token handler r =
    if not (is_post r.method)
    then (405, none)
    else if not (authorized token r)
    then (401, none)
    else if not (same_bytes (lib.media_type r.content_type) application_json)
    then (415, none)
    else handle_decoded lib handler (lib.decode r.body)

-- GET /ping
unfoldable pub handle_ping : Bytes → Request → ℕ
unfolding authorized
handle_ping token r = if authorized token r then 200 else 401

pub data Outcome : Type 0 where
  accepted app_unavailable invalid_url unauthorized queue_full internal_error : Outcome

pub record OutMessage : Type 0 where
  pub success : Bool
  pub outcome : Outcome

abbrev pub failure : Outcome → OutMessage
failure o = record { success = false; outcome = o }

unfoldable pub result_for_status : ℕ → OutMessage
result_for_status status =
    if status == 200 || status == 202
    then record { success = true; outcome = accepted }
    else if status == 400
    then failure invalid_url
    else if status == 401
    then failure unauthorized
    else if status == 503 || status == 429
    then failure queue_full
    else failure internal_error

pub data Action : Type 0 where
  download health unknown : Action

-- The message of the extension; an empty action is a download.
pub record InMessage : Type 0 where
  pub action : Action
  pub request : DownloadRequest

-- What the host meets: the token file if it can be read, the payload of a request, and the status of
-- the answer to an HTTP request, or `none` if nobody answers.
pub record World : Type 0 where
  pub token_file : Option Bytes
  pub trim_space : Bytes → Bytes
  pub encode : DownloadRequest → Option Bytes
  pub send : Request → Option ℕ

abbrev pub replied : Option ℕ → OutMessage
replied none = failure app_unavailable
replied (some status) = result_for_status status

abbrev pub posted : World → Bytes → Option Bytes → OutMessage
posted w token none = failure internal_error
posted w token (some payload) = replied (
    w.send (record {
      method = post;
      authorization = bearer ++ w.trim_space token;
      content_type = application_json;
      body = payload;
    }))

abbrev pub pinged : World → Bytes → OutMessage
pinged w token = replied (
    w.send (record {
      method = get;
      authorization = bearer ++ w.trim_space token;
      content_type = [];
      body = [];
    }))

abbrev pub sent : World → InMessage → Option Bytes → OutMessage
sent w m none = failure app_unavailable
sent w m (some token) = elim m.action [
  | download ↦ posted w token (w.encode m.request)
  | health ↦ pinged w token
  | unknown ↦ pinged w token
]

unfoldable pub send_to_app : World → InMessage → OutMessage
unfolding result_for_status
send_to_app w m = sent w m w.token_file

unfoldable pub handle_request : Reading → World → InMessage → OutMessage
unfolding send_to_app
handle_request lib w m = elim m.action [
  | unknown ↦ failure internal_error
  | health ↦ send_to_app w m
  | download ↦ if is_web (lib.parse_uri m.request.url) then send_to_app w m else failure invalid_url
]
