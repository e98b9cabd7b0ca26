-- ===== src/Bridge/Delivery.antt =====
-- What the local API lets through, and what the host tells the extension.
use lunefetch.Base.{
  ◌==◌, ◌≡◌, refl, sym, ap, ◌∙◌, if◌then◌else◌, [], ◌∷◌, ◌++◌, Option, none, some, Bool, true,
  false, ◌&&◌, ◌⊎◌, inl, inr, arith, Bool-cases, Option-cases, ==_refl,
}
use lunefetch.Core.ContentRange.{cut_prefix}
use lunefetch.Bridge.{
  Bytes, same_bytes, DownloadRequest, post, Reading, Request, bearer, application_json, authorized,
  is_post, is_web, admits_filename, admits_save_dir, Answer, handle_decoded, handle_download,
  accepted, invalid_url, queue_full, OutMessage, failure, result_for_status, download, World,
  send_to_app, handle_request,
}

same_bytes_eq : (xs ys : Bytes) → same_bytes xs ys ≡ true → xs ≡ ys
unfolding same_bytes
same_bytes_eq [] [] h = refl
same_bytes_eq [] (y ∷ ys) h = cc
same_bytes_eq (x ∷ xs) [] h = cc
same_bytes_eq (x ∷ xs) (y ∷ ys) h = elim (Bool-cases (x == y)) [
  | inl e ↦
      let head : x ≡ y = ground arith in let tail : xs ≡ ys = same_bytes_eq xs ys (rw e at h) in cc
  | inr e ↦ cc (rw e at h)
]

same_bytes_refl : (xs : Bytes) → same_bytes xs xs ≡ true
unfolding same_bytes
same_bytes_refl [] = refl
same_bytes_refl (x ∷ xs) = rw (==_refl x) (same_bytes_refl xs)

cut_prefix_lem : (ps value rest : Bytes) → cut_prefix ps value ≡ some rest → value ≡ ps ++ rest
unfolding cut_prefix
cut_prefix_lem [] value rest h = cc
cut_prefix_lem (p ∷ ps) [] rest h = cc
cut_prefix_lem (p ∷ ps) (c ∷ cs) rest h = elim (Bool-cases (p == c)) [
  | inl e ↦
      let head : p ≡ c = ground arith in
      let tail : cs ≡ ps ++ rest = cut_prefix_lem ps cs rest (rw e at h) in cc
  | inr e ↦ cc (rw e at h)
]

-- The header is the token, with the word Bearer or without.
abbrev pub IsBearer : Bytes → Bytes → Type 0
IsBearer token header = (header ≡ bearer ++ token) ⊎ (header ≡ token)

authorized-IsBearer :
    (token : Bytes) (r : Request) → authorized token r ≡ true → IsBearer token r.authorization
unfolding authorized
authorized-IsBearer token r h = elim (Option-cases (cut_prefix bearer r.authorization)) [
  | inl e ↦ inr (same_bytes_eq r.authorization token (ground (arith, (rw e at h))))
  | inr (rest, e) ↦
      let same : rest ≡ token = same_bytes_eq rest token (ground (arith, (rw e at h))) in
      inl (cut_prefix_lem bearer r.authorization rest e ∙ ap (λ t. bearer ++ t) same)
]

-- A request that the handler may see.
pub record IsAdmitted (lib : Reading) (q : DownloadRequest) : Type 0 where
  pub web : is_web (lib.parse_uri q.url) ≡ true
  pub filename : admits_filename lib q.filename ≡ true
  pub save_dir : admits_save_dir lib q.save_dir ≡ true

handle_decoded-IsAdmitted :
    (lib : Reading) (handler : DownloadRequest → Bool) (o : Option (DownloadRequest × Bool))
    (q : DownloadRequest)
    → (handle_decoded lib handler o).1 ≡ some q
    → (o ≡ some (q, false)) × IsAdmitted lib q
unfolding handle_decoded
handle_decoded-IsAdmitted lib handler none q h = cc
handle_decoded-IsAdmitted lib handler (some (r, true)) q h = cc
handle_decoded-IsAdmitted lib handler (some (r, false)) q h =
    elim (Bool-cases (is_web (lib.parse_uri r.url))) [
      | inr e ↦ cc (rw e at h)
      | inl web ↦ elim (Bool-cases (admits_filename lib r.filename)) [
        | inr e ↦ cc (rw (web, e) at h)
        | inl name ↦ elim (Bool-cases (admits_save_dir lib r.save_dir)) [
          | inr e ↦ cc (rw (web, name, e) at h)
          | inl dir ↦
              let same : r ≡ q = handed r q (handler r) (rw (web, name, dir) at h) in
              (
                ap (λ x. some (x, false)) same,
                record {
                  web = ap (λ x. is_web (lib.parse_uri x.url)) (sym same) ∙ web;
                  filename = ap (λ x. admits_filename lib x.filename) (sym same) ∙ name;
                  save_dir = ap (λ x. admits_save_dir lib x.save_dir) (sym same) ∙ dir;
                },
              )
        ]
      ]
    ]
  where
    handed :
        (a b : DownloadRequest) (yes_h : Bool)
        → (if◌then◌else◌ {A = Answer} yes_h (202, some a) (503, some a)).1 ≡ some b
        → a ≡ b
    handed a b true e = cc
    handed a b false e = cc

-- Whatever is sent to /download: the handler is called only for a POST whose header is the token and
-- whose body decodes to that request with nothing behind it, with a web URL and admitted hints.
pub handle_download-IsAdmitted :
    (lib : Reading) (token : Bytes) (handler : DownloadRequest → Bool) (r : Request)
    (q : DownloadRequest)
    → (handle_download lib token handler r).1 ≡ some q
    → (is_post r.method ≡ true)
      × IsBearer token r.authorization
      × (lib.decode r.body ≡ some (q, false))
      × IsAdmitted lib q
unfolding handle_download
handle_download-IsAdmitted lib token handler r q h = elim (Bool-cases (is_post r.method)) [
  | inr e ↦ cc (simp e at h)
  | inl posts ↦ elim (Bool-cases (authorized token r)) [
    | inr e ↦ cc (simp (posts, e) at h)
    | inl known ↦ elim (Bool-cases (same_bytes (lib.media_type r.content_type) application_json)) [
      | inr e ↦ cc (simp (posts, known, e) at h)
      | inl json ↦
          let (decodes, admitted) =
            handle_decoded-IsAdmitted lib handler (lib.decode r.body) q
              (simp (posts, known, json) at h) in
          (posts, authorized-IsBearer token r known, decodes, admitted)
    ]
  ]
]

-- What the extension hears of a download request that reaches the application.
abbrev pub verdict : Reading → (DownloadRequest → Bool) → DownloadRequest → OutMessage
verdict lib handler q =
    if is_web (lib.parse_uri q.url)
      && admits_filename lib q.filename
      && admits_save_dir lib q.save_dir
    then (if handler q then record { success = true; outcome = accepted } else failure queue_full)
    else failure invalid_url

module _ (lib : Reading) (token : Bytes) (handler : DownloadRequest → Bool) (q : DownloadRequest)
    (payload : Bytes) (json : lib.media_type application_json ≡ application_json)
    (decodes : lib.decode payload ≡ some (q, false)) where
  abbrev the_post : Request
  the_post = record {
    method = post;
    authorization = bearer ++ token;
    content_type = application_json;
    body = payload;
  }

  post-authorized : authorized token the_post ≡ true
  unfolding authorized
  post-authorized = ground (arith, same_bytes_refl token)

  post-decoded :
      handle_download lib token handler the_post ≡ handle_decoded lib handler (some (q, false))
  unfolding handle_download
  post-decoded = simp (post-authorized, json) (ap (handle_decoded lib handler) decodes)

  decoded-verdict :
      is_web (lib.parse_uri q.url) ≡ true
      → result_for_status (handle_decoded lib handler (some (q, false))).0 ≡ verdict lib handler q
  unfolding handle_decoded result_for_status
  decoded-verdict web = elim (Bool-cases (admits_filename lib q.filename)) [
    | inr e ↦ rw (web, e) refl
    | inl name ↦ elim (Bool-cases (admits_save_dir lib q.save_dir)) [
      | inr e ↦ rw (web, name, e) refl
      | inl dir ↦ elim (Bool-cases (handler q)) [
        | inl taken ↦ rw (web, name, dir, taken) refl
        | inr busy ↦ rw (web, name, dir, busy) refl
      ]
    ]
  ]

-- Where the host reads the token that the application has, and the payload decodes to the request:
-- a download request of the extension is accepted exactly if its URL and hints are admitted and the
-- handler takes it, is told to be busy if the handler does not, and otherwise to be invalid.
pub handle_request-verdict :
    (lib : Reading) (w : World) (token file payload : Bytes) (handler : DownloadRequest → Bool)
    (q : DownloadRequest)
    → lib.media_type application_json ≡ application_json
    → lib.decode payload ≡ some (q, false)
    → w.token_file ≡ some file
    → w.trim_space file ≡ token
    → w.encode q ≡ some payload
    → handle_request lib
        (record w { send = λ r. some (handle_download lib token handler r).0 })
        (record { action = download; request = q })
      ≡ verdict lib handler q
unfolding handle_request send_to_app
handle_request-verdict lib w token file payload handler q json decodes has_token trims encodes =
    elim (Bool-cases (is_web (lib.parse_uri q.url))) [
      | inr e ↦ rw e refl
      | inl web ↦
          simp (web, has_token, encodes, trims)
            (ap (λ a. result_for_status a.0) (post-decoded lib token handler q payload json decodes)
              ∙ decoded-verdict lib token handler q payload json decodes web
              ∙ verdict_web web)
    ]
  where
    verdict_web :
        is_web (lib.parse_uri q.url) ≡ true
        → verdict lib handler q ≡ (
            if admits_filename lib q.filename && admits_save_dir lib q.save_dir
            then (if handler q
                then record { success = true; outcome = accepted }
                else failure queue_full)
            else failure invalid_url)
    verdict_web web = rw web refl
