-- ===== src/Upload/Names.antt =====
-- upload.service.ts: allow lists, file names, remote paths and URLs. `nfc` stands for the
-- normalisation of Unicode texts; lower case is that of ASCII.
pub mod Paths
use mathlib.Core.List.{reverse}
use negare_api.Base.{
  ℕ, zero, suc, ◌+◌, ◌≤◌, ◌≡◌, Bool, true, false, ◌&&◌, ◌||◌, not, List, [], ◌∷◌, ◌++◌, map, Option,
  none, some, if◌then◌else◌, ◌==◌, leb, ltb, length, take, filter, all, or_else, last?,
}
use negare_api.Base.Text.{
  Text, codes, text_eq, text_includes, is_digit, is_lower, is_upper, lower, trim, split, join,
}
use negare_api.Upload.Types.{UploadConfig}

abbrev pub is_empty {ℓ} : {A : Type ℓ} → List A → Bool
is_empty [] = true
is_empty (c ∷ t) = false

unfoldable pub is_allowed_mime : UploadConfig → Text → Bool
is_allowed_mime cfg mime =
    let list = map lower cfg.allowed_mime in
    if is_empty list then true else not (is_empty mime) && text_includes list (lower mime)

-- All parts but the last, and the last.
abbrev pub unsnoc : Text → List Text → List Text × Text
unsnoc p [] = ([], p)
unsnoc p (q ∷ ps) = (p ∷ (unsnoc q ps).0, (unsnoc q ps).1)

-- The last part between separators and the parts in front of it.
abbrev pub cut_last : List Text → List Text × Text
cut_last [] = ([], [])
cut_last (p ∷ ps) = unsnoc p ps

abbrev is_alnum : ℕ → Bool
is_alnum c = is_lower c || is_digit c

-- The match of `/\.([a-z0-9]+)$/` on a text in lower case.
abbrev extension_of : List Text × Text → Option Text
extension_of ([], ext) = none
extension_of (p ∷ ps, ext) = if not (is_empty ext) && all is_alnum ext then some ext else none

abbrev listed : List Text → Option Text → Bool
listed list none = false
listed list (some ext) = text_includes list ext

unfoldable pub is_allowed_ext : UploadConfig → Text → Bool
is_allowed_ext cfg filename =
    let list = map lower cfg.allowed_exts in
    if is_empty list
    then true
    else listed list (extension_of (cut_last (split b'.' (lower filename))))

-- `[a-zA-Z0-9_.-]`
abbrev pub is_name_unit : ℕ → Bool
is_name_unit c = is_lower c || is_upper c || is_digit c || c == b'_' || c == b'.' || c == b'-'

-- Replaces every unit that is not allowed.
unfoldable pub cleaned : Text → Text → Text
cleaned replace_with [] = []
cleaned replace_with (c ∷ t) =
    let rest = cleaned replace_with t in if is_name_unit c then c ∷ rest else replace_with ++ rest

-- The base name, cut to its length, and `file` in place of nothing.
unfoldable pub base_name : ℕ → List Text → Text
base_name max_len tokens =
    let base = take max_len (join (codes "_") tokens) in
    if is_empty base then codes "file" else base

abbrev pub with_ext : Text → Text → Text
with_ext base ext = if is_empty ext then base else base ++ (b'.' ∷ ext)

abbrev pub name_parts : ℕ → List Text × Text → Text
name_parts max_len ([], only) = base_name max_len (only ∷ [])
name_parts max_len (p ∷ ps, ext) = with_ext (base_name max_len (p ∷ ps)) ext

unfoldable pub safe_name : (nfc : Text → Text) → UploadConfig → Text → Text
safe_name nfc cfg name =
    name_parts (or_else cfg.max_name_length 100)
      (cut_last (split b'.' (cleaned (or_else cfg.replace_with (codes "_")) (nfc name))))

abbrev pub is_plain_segment : Text → Bool
is_plain_segment t = not (is_empty t) && not (text_eq t (codes ".")) && not (text_eq t (codes ".."))

abbrev pub slash_unit : ℕ → ℕ
slash_unit c = if c == b'\\' then b'/' else c

unfoldable pub sanitize_path_segments : Text → List Text
sanitize_path_segments input =
    filter is_plain_segment (map trim (split b'/' (map slash_unit input)))

unfoldable pub normalize_subdir : Text → Text
normalize_subdir input =
    let segments = sanitize_path_segments input in
    if is_empty segments then codes "uploads" else join (codes "/") segments

unfoldable pub normalize_optional_segment : Option Text → Text
normalize_optional_segment input = join (codes "/") (sanitize_path_segments (or_else input []))

-- `MIME_EXTENSION_MAP`
abbrev mime_extensions : List (Text × Text)
mime_extensions =
    (codes "image/jpeg", codes "jpg")
    ∷ (codes "image/png", codes "png")
    ∷ (codes "image/webp", codes "webp")
    ∷ (codes "image/svg+xml", codes "svg")
    ∷ (codes "video/mp4", codes "mp4")
    ∷ (codes "video/x-matroska", codes "mkv")
    ∷ (codes "application/pdf", codes "pdf")
    ∷ (codes "application/zip", codes "zip")
    ∷ (codes "application/vnd.rar", codes "rar")
    ∷ []

unfoldable pub lookup_text : Text → List (Text × Text) → Option Text
lookup_text k [] = none
lookup_text k ((j, v) ∷ m) = if text_eq j k then some v else lookup_text k m

-- `name.replace(/\.[^.]+$/, '')`
abbrev pub strip_parts : Text → List Text × Text → Text
strip_parts t ([], only) = t
strip_parts t (p ∷ ps, ext) = if is_empty ext then t else join (codes ".") (p ∷ ps)

abbrev retarget : Text → Option Text → Text
retarget safe none = safe
retarget safe (some ext) = strip_parts safe (cut_last (split b'.' safe)) ++ (b'.' ∷ ext)

-- The extension follows the MIME type that was found, where the map knows it.
unfoldable pub final_name : (nfc : Text → Text) → UploadConfig → (filename mime : Text) → Text
final_name nfc cfg filename mime =
    retarget (safe_name nfc cfg filename) (lookup_text mime mime_extensions)

unfoldable pub relative_dir : UploadConfig → (subdir date_dir : Text) → Text
relative_dir cfg subdir date_dir = join (codes "/") (
    filter (λ t. not (is_empty t))
      (normalize_optional_segment cfg.public_subdir
        ∷ normalize_subdir (or_else cfg.base_dir subdir)
        ∷ date_dir
        ∷ []))

unfoldable pub strip_slashes : Text → Text
strip_slashes [] = []
strip_slashes (c ∷ t) = if c == b'/' then strip_slashes t else c ∷ t

unfoldable pub build_public_url : UploadConfig → Text → Text
build_public_url cfg path = reverse (strip_slashes (reverse cfg.cdn_base_url)) ++ (b'/' ∷ path)
