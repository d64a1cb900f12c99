-- ===== src/Downloader.antt =====
-- internal/downloader/downloader.go. Of the limiter the check of the limit is modelled; else it delays,
-- or fails at a read that exceeds its burst, which is then a body that breaks off. The destination can
-- be opened. What the server sends for a request is the parameter `server`.
pub mod Resume
pub mod Tests
use appcenter_agent.Common.{
  ℕ, zero, suc, ◌+◌, ◌-◌, ◌*◌, ◌/◌, ◌%◌, ◌^◌, ◌≤◌, ◌<◌, String, ◌≡◌, refl, sym, ap, ◌∙◌, subst, ◌≢◌,
  ◌↔◌, ◌⊎◌, inl, inr, Bool, true, false, not, ◌&&◌, ◌||◌, Option, none, some, List, [], ◌∷◌, ◌++◌,
  map, arith, eq_iff, ltb, leb, if◌then◌else◌, ltb→lt, lt→ltb, leb→le, tests, Bool-cases,
  Option-cases, is_some, ℤ, pos, negsuc, int_beq, int_ltb, is_positive, int_beq_iff, int_ltb_irrefl,
  int_ltb_asymm, int_ltb_neg_trans, int_ltb_antisymm, HasEq, ◌==◌, nat_eq, int_eq, string_eq,
  is_blank, or_empty, length, keep_if, head?, length-append, All, All-mono, All-map, All-of_map,
  All-keep_if, All-of_keep_if, All-both,
}
use appcenter_agent.Common.Dict.{
  Dict, lookup, contains, values, keys, Distinct, insert, delete, lookup-insert, lookup-delete,
  contains-insert, lookup-insert_self, lookup-delete_self, contains-delete, Distinct-insert,
  Distinct-delete, All-insert, All-delete, All-lookup, lookup_own,
}
use appcenter_agent.Common.Sort.{
  place, sort, All-place, All-sort, head-sort-All, head-sort-none, head-sort-min,
}
use appcenter_agent.Api.{
  Command, TaskStatusRequest, InstalledApp, RemoteSupportRequest, RemoteSupportEnd,
}
use appcenter_agent.Common.Text.{
  codes, is_space, trim_left, trim_right, trim_space, trim_slashes, lower_code, lowered, same_codes,
  same_codes_refl,
}
use appcenter_agent.Json.{
  Json, JsonObject, null, flag, number, text, other, get_text, text_or_empty,
}
use appcenter_agent.Files.{Bytes, Files}
use Prim.Native.Char.{Char, code}

-- A reply: status code, body as far as it came, whether reading it broke off, and the file name
-- parameter of a Content-Disposition header that can be parsed.
pub record Response : Type 0 where
  pub status : ℕ
  pub body : Bytes
  pub broken : Bool
  pub filename : Option String

-- the reply to a GET of the address, from the offset of a Range header where one is sent; `none` is
-- a request that fails
abbrev pub Server : Type 0
Server = String → Option ℕ → Option Response

pub record DownloadResult : Type 0 where
  pub bytes_written : ℕ
  pub filename : String

-- filepath.Base, with the separators and the drives of Windows
abbrev pub is_separator : ℕ → Bool
is_separator c = c == 47 || c == 92

abbrev has_separator : String → Bool
has_separator String.[] = false
has_separator (String.◌∷◌ c s) = is_separator (code c) || has_separator s

abbrev after_separators : String → String
after_separators String.[] = String.[]
after_separators (String.◌∷◌ c s) =
    let rest = after_separators s in
    if has_separator s then rest else if is_separator (code c) then s else String.◌∷◌ c s

abbrev without_drive : String → String
without_drive (String.◌∷◌ c (String.◌∷◌ d s)) =
    if code d == 58 && leb 97 (lower_code (code c)) && leb (lower_code (code c)) 122
    then s
    else String.◌∷◌ c (String.◌∷◌ d s)
without_drive s = s

abbrev or_separator : String → String
or_separator s = if is_blank s then "\\" else s

abbrev pub base : String → String
base path =
    if is_blank path
    then "."
    else or_separator (after_separators (without_drive (trim_right is_separator path)))

-- extractFilename, from the parameter of the header
abbrev pub extract_filename : Option String → String → String
extract_filename none fallback = base fallback
extract_filename (some name) fallback =
    let filename = trim_space name in if is_blank filename then base fallback else filename

-- os.Stat of the destination, and the size
abbrev pub resume_offset : Option Bytes → ℕ
resume_offset none = 0
resume_offset (some old) = length old

abbrev pub or_no_bytes : Option Bytes → Bytes
or_no_bytes none = []
or_no_bytes (some old) = old

abbrev pub range_header : ℕ → Option ℕ
range_header offset = if ltb 0 offset then some offset else none

-- what the destination holds after the copy: appended for 206 on a resumed request, else anew
abbrev pub written : ℕ → Option Bytes → Response → Bytes
written offset old resp =
    if ltb 0 offset && resp.status == 206 then or_no_bytes old ++ resp.body else resp.body

unfoldable pub store_body : Files → String → Response → ℕ → Option DownloadResult × Files
store_body files dest resp offset =
    let files' = insert dest (written offset (lookup dest files) resp) files in
    (
      if resp.broken
          then none
          else some (record {
            bytes_written = length resp.body;
            filename = extract_filename resp.filename dest;
          }),
      files',
    )

unfoldable pub on_response : Files → String → ℕ → Option Response → Option DownloadResult × Files
unfolding store_body
on_response files dest offset none = (none, files)
on_response files dest offset (some resp) =
    if not (resp.status == 200) && not (resp.status == 206)
    then (none, files)
    else store_body files dest resp offset

-- DownloadFileWithMeta: the result, or `none` for an error, and the files after it
unfoldable pub download_file : Server → ℤ → String → String → Files → Option DownloadResult × Files
unfolding on_response
download_file server limit url dest files =
    if is_positive limit
    then (let offset = resume_offset (lookup dest files) in
        on_response files dest offset (server url (range_header offset)))
    else (none, files)
