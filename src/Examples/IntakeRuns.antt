-- ===== src/Examples/IntakeRuns.antt =====
-- The way from a request to a download on concrete inputs.
use lunefetch.Base.{
  ℕ, zero, suc, ◌+◌, ◌≡◌, refl, sym, ap, ◌∙◌, List, [], ◌∷◌, map, Option, none, some, true, ◌&&◌,
  length, arith, text_eq, String,
}
use lunefetch.Base.Int64.{pos}
use lunefetch.Storage.Record.{ChunkRecord}
use lunefetch.Storage.Sql.{quiet, Conn, ok, select, transaction, exec_for, exec_checked}
use lunefetch.Storage.Downloads.{
  is_live, create_download_with_chunks, insert_with_chunks, insert_download,
}
use lunefetch.Storage.Chunks.{get_chunks, insert_chunks}
use lunefetch.Storage.Invariant.Reachable.{empty_tables}
use lunefetch.Config.{default, chunks_for_size}
use lunefetch.Bridge.{Scheme, Url}
use lunefetch.Core.Chunks.{calculate_chunks, split_chunks, capped_count}
use lunefetch.Core.Names.{validate_filename, same_text, any_of}
use lunefetch.Core.ContentRange.{split}
use lunefetch.Core.Paths.{abs, is_blank, safe_save_dir, parent}
use lunefetch.Core.Paths.Within.{AllPlain, safe_save_dir-IsWithin}
use lunefetch.Core.Info.{FileInfo, Head, Disposition}
use lunefetch.Filecat.{codes, Category, from_url}
use lunefetch.Page.{chunk_def}
use lunefetch.Intake.{AddRequest, Context, wanted_chunks, unique_name, save_download}
use lunefetch.Intake.Names.{tries, unique_name-free}
use lunefetch.Intake.Saved.{save_download-get_chunks}

same_rune : ℕ → ℕ
same_rune c = c

reserved_name : validate_filename same_rune (codes "com1.txt") ≡ none
unfolding validate_filename
reserved_name = refl

category_of_archive : from_url same_rune (codes "http://a/b/linux.TAR?x=1#y") ≡ Category.compressed
unfolding from_url
category_of_archive = refl

safe_save_dir-IsWithin_example :
    (safe_save_dir (some (codes "/home")) (codes "/home/down") (codes "down/../down//iso")
      ≡ some (codes "home" ∷ codes "down" ∷ codes "iso" ∷ []))
    × AllPlain
        (safe_save_dir (some (codes "/home")) (codes "/home/down") (codes "down/../down//iso"))
unfolding abs is_blank any_of split same_text parent
safe_save_dir-IsWithin_example =
    safe_save_dir-IsWithin (some (codes "/home")) (codes "/home/down") (codes "down/../down//iso")
      (codes "home" ∷ codes "down" ∷ []) refl

abbrev web : Option Url
web = some (record { scheme = Scheme.https; has_host = true })

abbrev head : Head
head = record {
  status = 200;
  content_length = "1000";
  media_type = "text/html";
  is_attachment = true;
  disposition = Disposition.named "page.html";
  accept_ranges = "bytes";
  content_range = "";
  etag = "v1";
  last_modified = "";
  url_name = some "get";
}

-- The number as strokes in front of the name.
strokes : String → ℕ → String
strokes name zero = name
strokes name (suc i) = String.◌∷◌ "|" (strokes name i)

text_length : String → ℕ
text_length String.[] = 0
text_length (String.◌∷◌ c s) = suc (text_length s)

length-strokes : (name : String) (i : ℕ) → text_length (strokes name i) ≡ i + text_length name
unfolding strokes text_length
length-strokes name zero = omega arith
length-strokes name (suc i) = omega (arith, length-strokes name i)

abbrev context : Context
context = record {
  config = default (codes "/home/down");
  download_dir = "/home/down";
  cwd = some (codes "/home");
  upper = same_rune;
  lower = same_rune;
  sprintf = λ base i ext. strokes "a.zip" i;
}

tries_lem : (i : ℕ) → tries context "a.zip" i ≡ strokes "a.zip" i
unfolding strokes
tries_lem zero = refl
tries_lem (suc i) = refl

tries-apart : (i j : ℕ) → tries context "a.zip" i ≡ tries context "a.zip" j → i ≡ j
tries-apart i j e = omega (
  arith,
  sym (length-strokes "a.zip" i)
      ∙ ap text_length (sym (tries_lem i) ∙ e ∙ tries_lem j)
      ∙ length-strokes "a.zip" j,
)

abbrev request : AddRequest
request = record {
  url = "http://a/a.zip";
  filename = "";
  save_dir = "";
  category = "";
  speed_limit = pos 0;
  scheduled_at = "";
}

abbrev info : FileInfo
info = record {
  size = pos 1000;
  supports_range = true;
  filename = "a.zip";
  etag = "v1";
  last_modified = "";
}

-- The name is taken.
abbrev one_saved : Conn
one_saved = (save_download context 1 request info "a.zip" "Compressed" (quiet empty_tables)).1

one_saved_quiet : one_saved.faults ≡ []
unfolding save_download calculate_chunks create_download_with_chunks chunks_for_size default
    split_chunks capped_count transaction insert_with_chunks exec_for insert_chunks exec_checked
    insert_download
one_saved_quiet = refl

unique_name-free_example :
    (i : ℕ) × (unique_name context "a.zip" one_saved ≡ (some (tries context "a.zip" i), one_saved))
    × (length (
          select
            (λ r. text_eq r.filename (tries context "a.zip" i) && is_live r)
            one_saved.db.downloads)
        ≡ 0)
unique_name-free_example = unique_name-free context "a.zip" one_saved one_saved_quiet tries-apart

save_download-get_chunks_example :
    let r = save_download context 1 request info "a.zip" "Compressed" (quiet empty_tables) in
    (r.0 ≡ ok 1)
    × ((cs : List ChunkRecord) × ((get_chunks 1 r.1).0 ≡ ok cs)
        × (map chunk_def cs ≡ calculate_chunks (pos 1000) (wanted_chunks context info)))
save_download-get_chunks_example =
    save_download-get_chunks context 1 request info "a.zip" "Compressed" empty_tables
      (record { slots = record { apart = tt; below = tt }; summed = tt; owned = tt })
