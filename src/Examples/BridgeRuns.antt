-- ===== src/Examples/BridgeRuns.antt =====
-- The bridge from the browser extension on concrete inputs.
use lunefetch.Base.{
  ◌≡◌, refl, if◌then◌else◌, ◌==◌, ◌||◌, ltb, length, arith, [], ◌∷◌, ◌++◌, none, some, true, false,
}
use lunefetch.Bridge.{
  Bytes, DownloadRequest, post, https, Reading, Request, bearer, application_json, is_post,
  handle_download, download, World, handle_request, authorized, same_bytes, handle_decoded,
  admits_filename, admits_save_dir,
}
use lunefetch.Bridge.Delivery.{
  IsBearer, IsAdmitted, handle_download-IsAdmitted, verdict, handle_request-verdict,
}
use lunefetch.Bridge.Framing.{
  max_message_size, write_message, read_message, read_message-write_message,
}
use lunefetch.Core.ContentRange.{cut_prefix}

abbrev wanted : DownloadRequest
wanted = record { url = 104 ∷ []; filename = []; save_dir = [] }

abbrev lib : Reading
lib = record {
  media_type = λ t. t;
  decode = λ b. some (wanted, false);
  parse_uri = λ u. some (record { scheme = https; has_host = true });
  base_name = λ n. n;
  is_abs = λ d. true;
}

abbrev world : World
world = record {
  token_file = some (5 ∷ 6 ∷ []);
  trim_space = λ t. t;
  encode = λ q. some (123 ∷ 125 ∷ []);
  send = λ r. none;
}

abbrev sent_post : Request
sent_post = record {
  method = post;
  authorization = bearer ++ 5 ∷ 6 ∷ [];
  content_type = application_json;
  body = 123 ∷ 125 ∷ [];
}

sent_post-handed : (handle_download lib (5 ∷ 6 ∷ []) (λ q. true) sent_post).1 ≡ some wanted
unfolding handle_download authorized cut_prefix same_bytes handle_decoded admits_filename
    admits_save_dir
sent_post-handed = refl

handle_download-IsAdmitted_example :
    (is_post post ≡ true)
    × IsBearer (5 ∷ 6 ∷ []) (bearer ++ 5 ∷ 6 ∷ [])
    × (lib.decode (123 ∷ 125 ∷ []) ≡ some (wanted, false))
    × IsAdmitted lib wanted
handle_download-IsAdmitted_example =
    handle_download-IsAdmitted lib (5 ∷ 6 ∷ []) (λ q. true) sent_post wanted sent_post-handed

handle_request-verdict_example :
    handle_request lib
      (record world { send = λ r. some (handle_download lib (5 ∷ 6 ∷ []) (λ q. true) r).0 })
      (record { action = download; request = wanted })
    ≡ verdict lib (λ q. true) wanted
handle_request-verdict_example =
    handle_request-verdict lib world (5 ∷ 6 ∷ []) (5 ∷ 6 ∷ []) (123 ∷ 125 ∷ []) (λ q. true) wanted
      refl refl refl refl refl

abbrev body : Bytes
body = 7 ∷ 8 ∷ []

read_message-write_message_example :
    read_message (write_message body ++ 9 ∷ [])
    ≡ (if length body == 0 || ltb max_message_size (length body) then none else some (body, 9 ∷ []))
read_message-write_message_example = read_message-write_message body (9 ∷ []) (omega arith)
