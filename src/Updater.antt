-- ===== src/Updater.antt =====
-- internal/updater: updater.go and apply.go. The files are bytes but for pending_update.json, which
-- is kept decoded.
pub mod Version
pub mod Staging
pub mod Applying
pub mod Order
pub mod Parse
pub mod Tests
use appcenter_agent.Common.{
  ℕ, zero, suc, ◌+◌, ◌-◌, ◌*◌, ◌/◌, ◌%◌, ◌^◌, ◌≤◌, ◌<◌, String, ◌≡◌, refl, sym, ap, ◌∙◌, subst, ◌≢◌,
  ◌↔◌, ◌⊎◌, inl, inr, Bool, true, false, not, ◌&&◌, ◌||◌, Option, none, some, List, [], ◌∷◌, ◌++◌,
  map, arith, eq_iff, ltb, leb, if◌then◌else◌, ltb→lt, lt→ltb, leb→le, tests, Bool-cases,
  Option-cases, is_some, ℤ, pos, negsuc, int_beq, int_ltb, is_positive, int_beq_iff, int_ltb_irrefl,
  int_ltb_asymm, int_ltb_neg_trans, int_ltb_antisymm, HasEq, ◌==◌, nat_eq, int_eq, string_eq,
  is_blank, or_empty, first_non_blank, length, keep_if, head?, length-append, All, All-mono,
  All-map, All-of_map, All-keep_if, All-of_keep_if, All-both,
}
use appcenter_agent.Common.Dict.{
  Dict, lookup, contains, values, keys, Distinct, insert, delete, lookup-insert, lookup-delete,
  contains-insert, lookup-insert_self, lookup-delete_self, contains-delete, Distinct-insert,
  Distinct-delete, All-insert, All-delete, All-lookup, lookup_own,
}
use appcenter_agent.Common.Sort.{
  place, sort, All-place, All-sort, head-sort-All, head-sort-none, head-sort-min,
}
use appcenter_agent.Api.{
  Command, TaskStatusRequest, InstalledApp, RemoteSupportRequest, RemoteSupportEnd,
}
use appcenter_agent.Common.Text.{
  codes, is_space, trim_left, trim_right, trim_space, trim_slashes, lower_code, lowered, same_codes,
  same_codes_refl, append, starts_with_slash, resolve_url, join,
}
use appcenter_agent.Json.{
  Json, JsonObject, null, flag, number, text, other, get_text, text_or_empty,
}
use appcenter_agent.Files.{Bytes, Files, verify_file_hash}
use appcenter_agent.Config.{Config}
use appcenter_agent.Downloader.{Server, DownloadResult, download_file}
use appcenter_agent.Updater.Version.{is_newer_version, sanitize_version}

pub record StagedUpdate : Type 0 where
  pub version : String
  pub file_path : String
  pub hash : String
  pub force : Bool
  pub staged_at_utc : ℕ
  pub source_url : String
  pub agent_version : String

-- pending_update.json: missing, one that does not decode, or metadata
pub data Pending : Type 0 where
  absent : Pending
  unreadable : Pending
  staged : StagedUpdate → Pending

pub record Disk : Type 0 where
  pub files : Files
  pub pending : Pending

-- os.WriteFile of pending_update.json: it is not opened; it is opened, which empties it, and not
-- written to its end; it is written and closing it fails; or it succeeds
pub data WriteResult : Type 0 where
  not_opened : WriteResult
  cut_short : WriteResult
  not_closed : WriteResult
  wrote : WriteResult

-- whether the folder for downloads can be made, and how pending_update.json is written
pub record Storage : Type 0 where
  pub makes_folder : Bool
  pub writes : WriteResult

-- what StageIfNeeded returns: nothing to do, an error, or an update that is staged
pub data StageResult : Type 0 where
  skipped : StageResult
  failed : StageResult
  done : StageResult

abbrev pub latest_version : JsonObject → String
latest_version hb = get_text hb "latest_agent_version"

abbrev pub is_force : JsonObject → Bool
is_force hb = same_codes (lowered (trim_space (get_text hb "mode"))) (codes "force")

abbrev pub staged_path : Config → JsonObject → String
unfolding sanitize_version
staged_path cfg hb =
    join cfg.download.temp_dir
      (append "agent-update-" (append (sanitize_version (latest_version hb)) ".exe"))

abbrev pub staged_update : ℕ → Config → JsonObject → StagedUpdate
staged_update now cfg hb = record {
  version = latest_version hb;
  file_path = staged_path cfg hb;
  hash = get_text hb "agent_hash";
  force = is_force hb;
  staged_at_utc = now;
  source_url = resolve_url cfg.server.url (get_text hb "agent_download_url");
  agent_version = cfg.agent.version;
}

-- a beginning of the metadata does not decode
abbrev pub write_pending : WriteResult → StagedUpdate → Disk → StageResult × Disk
write_pending not_opened meta disk = (failed, disk)
write_pending cut_short meta disk = (failed, record disk { pending = unreadable })
write_pending not_closed meta disk = (failed, record disk { pending = staged meta })
write_pending wrote meta disk = (done, record disk { pending = staged meta })

-- the hash of the downloaded file: an error, a mismatch, or a match
abbrev pub conclude : Storage → ℕ → Config → JsonObject → Option Bool → Disk → StageResult × Disk
conclude io now cfg hb none disk = (failed, disk)
conclude io now cfg hb (some false) disk =
    (failed, record disk { files = delete (staged_path cfg hb) disk.files })
conclude io now cfg hb (some true) disk = write_pending io.writes (staged_update now cfg hb) disk

abbrev pub after_download :
    (Bytes → List ℕ)
    → Storage
    → ℕ
    → Config
    → JsonObject
    → Option DownloadResult × Files
    → Disk
    → StageResult × Disk
after_download sha256 io now cfg hb (none, files) disk = (failed, record disk { files = files })
after_download sha256 io now cfg hb (some r, files) disk =
    conclude io now cfg hb
      (verify_file_hash sha256 files (staged_path cfg hb) (get_text hb "agent_hash"))
      (record disk { files = files })

unfoldable pub stage_if_needed :
    Server → (Bytes → List ℕ) → Storage → ℕ → Config → JsonObject → Disk → StageResult × Disk
stage_if_needed server sha256 io now cfg hb disk =
    if is_blank (latest_version hb)
      || is_blank (get_text hb "agent_download_url")
      || is_blank (get_text hb "agent_hash")
    then (skipped, disk)
    else if not (is_force hb) && not (is_newer_version (latest_version hb) cfg.agent.version)
    then (skipped, disk)
    else if not io.makes_folder
    then (failed, disk)
    else after_download sha256 io now cfg hb
        (download_file server cfg.download.bandwidth_limit_kbps
          (resolve_url cfg.server.url (get_text hb "agent_download_url")) (staged_path cfg hb)
          disk.files)
        disk

-- the command line of the helper
pub record HelperCall : Type 0 where
  pub helper : String
  pub service_name : String
  pub target_exe : String
  pub new_exe : String
  pub meta_path : String
  pub config_path : String
  pub target_version : String

-- what ApplyIfPending returns: nothing to do, an error, or ErrUpdateRestart after the helper started
pub data ApplyResult : Type 0 where
  nothing : ApplyResult
  refused : ApplyResult
  restart : HelperCall → ApplyResult

-- loadStagedUpdate
abbrev pub load_staged_update : Pending → Option StagedUpdate
load_staged_update absent = none
load_staged_update unreadable = none
load_staged_update (staged m) =
    if is_blank m.version || is_blank m.file_path || is_blank m.hash then none else some m

abbrev pub helper_call : Config → String → String → StagedUpdate → HelperCall
helper_call cfg cfg_path exe meta = record {
  helper = cfg.update.helper_path;
  service_name = cfg.update.service_name;
  target_exe = exe;
  new_exe = meta.file_path;
  meta_path = join cfg.download.temp_dir "pending_update.json";
  config_path = cfg_path;
  target_version = meta.version;
}

abbrev pub start_helper : Bool → Config → String → String → StagedUpdate → Option Bool → ApplyResult
start_helper starts cfg cfg_path exe meta none = refused
start_helper starts cfg cfg_path exe meta (some false) = refused
start_helper starts cfg cfg_path exe meta (some true) =
    if is_blank cfg.update.helper_path || is_blank exe || not starts
    then refused
    else restart (helper_call cfg cfg_path exe meta)

abbrev pub apply_staged :
    (Bytes → List ℕ) → Bool → Config → String → String → Files → Option StagedUpdate → ApplyResult
apply_staged sha256 starts cfg cfg_path exe files none = refused
apply_staged sha256 starts cfg cfg_path exe files (some meta) =
    if not meta.force && not (is_newer_version meta.version cfg.agent.version)
    then nothing
    else start_helper starts cfg cfg_path exe meta
        (verify_file_hash sha256 files meta.file_path meta.hash)

abbrev pub is_absent : Pending → Bool
is_absent absent = true
is_absent unreadable = false
is_absent (staged m) = false

-- applyIfPending; `starts` tells whether the helper can be started
unfoldable pub apply_if_pending :
    (Bytes → List ℕ) → Bool → Config → String → String → Disk → ApplyResult
apply_if_pending sha256 starts cfg cfg_path exe disk =
    if not cfg.update.auto_apply || is_absent disk.pending
    then nothing
    else apply_staged sha256 starts cfg cfg_path exe disk.files (load_staged_update disk.pending)
