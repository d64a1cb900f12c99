-- ===== src/RuntimeUpdate.antt =====
-- internal/runtimeupdate/manager.go: the tray program and the helper of remote support are kept at the
-- versions of a manifest. What the network, Windows and the renames answer is `Situation`.
pub mod Replacing
pub mod Safety
pub mod Loop
pub mod Untouched
pub mod Origin
pub mod Settling
pub mod Tests
use appcenter_agent.Common.{
  ℕ, zero, suc, ◌+◌, ◌-◌, ◌*◌, ◌/◌, ◌%◌, ◌^◌, ◌≤◌, ◌<◌, String, ◌≡◌, refl, sym, ap, ◌∙◌, subst, ◌≢◌,
  ◌↔◌, ◌⊎◌, inl, inr, Bool, true, false, not, ◌&&◌, ◌||◌, Option, none, some, List, [], ◌∷◌, ◌++◌,
  map, arith, eq_iff, ltb, leb, if◌then◌else◌, ltb→lt, lt→ltb, leb→le, tests, Bool-cases,
  Option-cases, is_some, ℤ, pos, negsuc, int_beq, int_ltb, is_positive, int_beq_iff, int_ltb_irrefl,
  int_ltb_asymm, int_ltb_neg_trans, int_ltb_antisymm, HasEq, ◌==◌, nat_eq, int_eq, string_eq,
  is_blank, or_empty, first_non_blank, length, keep_if, head?, length-append, All, All-mono,
  All-map, All-of_map, All-keep_if, All-of_keep_if, All-both,
}
use appcenter_agent.Common.Dict.{
  Dict, lookup, contains, values, keys, Distinct, insert, delete, lookup-insert, lookup-delete,
  contains-insert, lookup-insert_self, lookup-delete_self, contains-delete, Distinct-insert,
  Distinct-delete, All-insert, All-delete, All-lookup, lookup_own,
}
use appcenter_agent.Common.Sort.{
  place, sort, All-place, All-sort, head-sort-All, head-sort-none, head-sort-min,
}
use appcenter_agent.Api.{
  Command, TaskStatusRequest, InstalledApp, RemoteSupportRequest, RemoteSupportEnd,
}
use appcenter_agent.Common.Text.{
  codes, is_space, trim_left, trim_right, trim_space, trim_slashes, lower_code, lowered, same_codes,
  same_codes_refl, append, starts_with_slash, resolve_url, join,
}
use appcenter_agent.Json.{
  Json, JsonObject, null, flag, number, text, other, get_text, text_or_empty,
}
use appcenter_agent.Files.{Bytes, Files, verify_file_hash}
use appcenter_agent.Queue.{minute}

pub record RuntimeConfig : Type 0 where
  pub base_url : String
  pub interval_min : ℤ
  pub jitter_sec : ℤ

pub record ManifestFile : Type 0 where
  pub sha256_text : String
  pub url : String

abbrev pub positive_or : ℤ → ℤ → ℤ
positive_or n default = if is_positive n then n else default

unfoldable pub normalize_config : RuntimeConfig → RuntimeConfig
normalize_config cfg = record {
  base_url = trim_slashes (trim_space cfg.base_url);
  interval_min = positive_or cfg.interval_min (pos 60);
  jitter_sec = if int_ltb cfg.jitter_sec (pos 0) then pos 0 else cfg.jitter_sec;
}

abbrev pub magnitude : ℤ → ℕ
magnitude (pos n) = n
magnitude (negsuc n) = 0

-- a word of 64 bits as a wait: from 2 ^ 63 on it is negative, and time.After fires at once
abbrev pub wait_of : ℕ → ℕ
wait_of word = if ltb word (2 ^ 63) then word else 0

-- computeWait of a normal configuration, in nanoseconds; `drawn` is what r.Intn returns
unfoldable pub compute_wait : RuntimeConfig → ℕ → ℕ
compute_wait cfg drawn =
    let base = magnitude cfg.interval_min * minute in
    wait_of
      ((if not (is_positive cfg.jitter_sec) then base else base + drawn * 1_000_000_000) % 2 ^ 64)

-- A reply to a GET: status, body as far as it came, and whether reading it broke off.
pub record Reply : Type 0 where
  pub status : ℕ
  pub body : Bytes
  pub broken : Bool

pub record Situation : Type 0 where
  -- whether the program is running, an old backup can be removed, and the destination can be
  -- renamed, else removed
  pub running : Bool
  pub clears : Bool
  pub backs_up : Bool
  pub removes : Bool
  -- whether the new file can be put in place, and else the old one put back
  pub swaps : Bool
  pub restores : Bool

-- os.Rename where the system allows it
abbrev pub moved : Option Bytes → String → String → Files → Bool × Files
moved none src dst files = (false, files)
moved (some b) src dst files = (true, insert dst b (delete src files))

abbrev pub rename : Bool → String → String → Files → Bool × Files
rename allowed src dst files =
    if allowed then moved (lookup src files) src dst files else (false, files)

abbrev pub backup_path : String → String
backup_path dst = append dst ".bak"

-- the destination out of the way
unfoldable pub set_aside : Situation → String → Files → Files
set_aside w dst files =
    let clean = if w.clears then delete (backup_path dst) files else files in
    let kept = rename w.backs_up dst (backup_path dst) clean in
    if not (contains dst clean)
    then clean
    else if kept.0
    then kept.1
    else if w.removes
    then delete dst clean
    else clean

unfoldable pub replace_file : Situation → String → String → Files → Bool × Files
unfolding set_aside
replace_file w dst temp files =
    let aside = set_aside w dst files in
    let swap = rename w.swaps temp dst aside in
    if swap.0 then swap else (false, (rename w.restores (backup_path dst) dst aside).1)

abbrev pub temp_path : String → String
temp_path dst = append dst ".download"

-- the hash of the downloaded file, then the replacement; `true` is a nil error
abbrev pub install_temp : Situation → Bool → String → Option Bool → Files → Bool × Files
unfolding replace_file
install_temp w is_helper dst none files = (false, delete (temp_path dst) files)
install_temp w is_helper dst (some false) files = (false, delete (temp_path dst) files)
install_temp w is_helper dst (some true) files =
    if is_helper && w.running then (true, delete (temp_path dst) files) else (
      (replace_file w dst (temp_path dst) files).0,
      delete (temp_path dst) (replace_file w dst (temp_path dst) files).1,
    )

-- downloadToFile and what follows it
abbrev pub on_reply :
    (Bytes → List ℕ) → Situation → Bool → String → String → Option Reply → Files → Bool × Files
unfolding install_temp
on_reply sha256 w is_helper dst expected none files = (false, files)
on_reply sha256 w is_helper dst expected (some r) files =
    let files' = insert (temp_path dst) r.body files in
    if not (r.status == 200)
    then (false, files)
    else if r.broken
    then (false, files')
    else install_temp w is_helper dst (verify_file_hash sha256 files' (temp_path dst) expected)
        files'

abbrev pub is_valid : Option Bool → Bool
is_valid (some b) = b
is_valid none = false

abbrev pub file_url : RuntimeConfig → String → ManifestFile → String
file_url cfg name entry =
    let url = trim_space entry.url in
    if is_blank url then append cfg.base_url (append "/" name) else url

abbrev pub ensure_entry :
    (String → Option Reply)
    → (Bytes → List ℕ)
    → Situation
    → RuntimeConfig
    → String
    → String
    → Option ManifestFile
    → Files
    → Bool × Files
unfolding on_reply
ensure_entry server sha256 w cfg name dst none files = (true, files)
ensure_entry server sha256 w cfg name dst (some entry) files =
    let expected = trim_space entry.sha256_text in
    if is_blank expected
    then (true, files)
    else if is_valid (verify_file_hash sha256 files dst expected)
    then (true, files)
    else on_reply sha256 w (name == "rshelper.exe") dst expected (server (file_url cfg name entry))
        files

-- ensureFile: whether it returns no error, and the files after it
unfoldable pub ensure_file :
    (String → Option Reply)
    → (Bytes → List ℕ)
    → Situation
    → RuntimeConfig
    → Dict String ManifestFile
    → String
    → String
    → Files
    → Bool × Files
unfolding ensure_entry
ensure_file server sha256 w cfg manifest exe_dir name files =
    ensure_entry server sha256 w cfg name (join exe_dir name) (lookup name manifest) files
