-- ===== src/UpdateHelper.antt =====
-- cmd/update-helper/main_windows.go: the program that replaces the service's executable. Its files,
-- the configuration and the metadata among them, are bytes; what Windows answers is `Machine`. A copy
-- whose destination can be opened is taken to be complete.
pub mod Outcomes
pub mod Tests
use appcenter_agent.Common.{
  ℕ, zero, suc, ◌+◌, ◌-◌, ◌*◌, ◌/◌, ◌%◌, ◌^◌, ◌≤◌, ◌<◌, String, ◌≡◌, refl, sym, ap, ◌∙◌, subst, ◌≢◌,
  ◌↔◌, ◌⊎◌, inl, inr, Bool, true, false, not, ◌&&◌, ◌||◌, Option, none, some, List, [], ◌∷◌, ◌++◌,
  map, arith, eq_iff, ltb, leb, if◌then◌else◌, ltb→lt, lt→ltb, leb→le, tests, Bool-cases,
  Option-cases, is_some, ℤ, pos, negsuc, int_beq, int_ltb, is_positive, int_beq_iff, int_ltb_irrefl,
  int_ltb_asymm, int_ltb_neg_trans, int_ltb_antisymm, HasEq, ◌==◌, nat_eq, int_eq, string_eq,
  is_blank, or_empty, first_non_blank, length, keep_if, head?, length-append, All, All-mono,
  All-map, All-of_map, All-keep_if, All-of_keep_if, All-both,
}
use appcenter_agent.Common.Dict.{
  Dict, lookup, contains, values, keys, Distinct, insert, delete, lookup-insert, lookup-delete,
  contains-insert, lookup-insert_self, lookup-delete_self, contains-delete, Distinct-insert,
  Distinct-delete, All-insert, All-delete, All-lookup, lookup_own,
}
use appcenter_agent.Common.Sort.{
  place, sort, All-place, All-sort, head-sort-All, head-sort-none, head-sort-min,
}
use appcenter_agent.Api.{
  Command, TaskStatusRequest, InstalledApp, RemoteSupportRequest, RemoteSupportEnd,
}
use appcenter_agent.Common.Text.{
  codes, is_space, trim_left, trim_right, trim_space, trim_slashes, lower_code, lowered, same_codes,
  same_codes_refl, append, starts_with_slash, resolve_url, join,
}
use appcenter_agent.Json.{
  Json, JsonObject, null, flag, number, text, other, get_text, text_or_empty,
}
use appcenter_agent.Files.{Bytes, Files, verify_file_hash}
use appcenter_agent.Config.{
  Config, ServerConfig, AgentConfig, HeartbeatConfig, WebSocketConfig, SystemProfileConfig,
  RemoteSupportConfig, DownloadConfig, InstallConfig, UpdateConfig, LoggingConfig, default_config,
  validate, apply_defaults, Overrides, override, apply_runtime_overrides, finish, load,
  ensure_exists, save, is_negative, or_default,
}

pub record Arguments : Type 0 where
  pub target_exe : String
  pub new_exe : String
  pub meta_path : String
  pub config_path : String
  pub target_version : String
  -- the suffix of the backup, made from the time
  pub stamp : String

-- What Windows answers: whether the service is found and stops in time, whether the destinations can
-- be opened and the replacements renamed, at the first replacement and at the one that rolls back,
-- whether the configuration can be written, and whether the service starts, and starts again.
pub record Machine : Type 0 where
  pub found : Bool
  pub stops : Bool
  pub backup_opens : Bool
  pub copy_opens : Bool
  pub renames : Bool
  pub rollback_opens : Bool
  pub rollback_renames : Bool
  pub config_writes : Bool
  pub starts : Bool
  pub starts_again : Bool

pub record World : Type 0 where
  pub files : Files
  pub running : Bool

-- the end of the program: logger.Fatalf, or the end of main
pub data Exit : Type 0 where
  fatal : Exit
  completed : Exit

abbrev pub copied : Bool → String → Option Bytes → Files → Bool × Files
copied opens dst none files = (false, files)
copied opens dst (some b) files = if opens then (true, insert dst b files) else (false, files)

unfoldable pub copy_file : Bool → String → String → Files → Bool × Files
copy_file opens src dst files = copied opens dst (lookup src files) files

abbrev pub moved : Option Bytes → String → String → Files → Files
moved none tmp dst files = files
moved (some b) tmp dst files = insert dst b (delete tmp files)

-- replaceFile: copy beside the destination, remove the destination, rename, remove the source
unfoldable pub replace_file : Bool → Bool → String → String → Files → Bool × Files
unfolding copy_file
replace_file opens renames src dst files =
    let tmp = append dst ".new" in
    let copy = copy_file opens src tmp files in
    let removed = delete dst copy.1 in
    if not copy.0
    then (false, copy.1)
    else if renames
    then (true, delete src (moved (lookup tmp removed) tmp dst removed))
    else (false, removed)

abbrev pub with_version : String → Config → Config
with_version version c = record c { agent = record c.agent { version = version } }

abbrev pub update_loaded : (Config → Bytes) → Bool → String → String → Option Config → Files → Files
update_loaded encode writes path version none files = files
update_loaded encode writes path version (some c) files =
    if writes then insert path (encode (with_version version c)) files else files

-- updateConfigVersion
unfoldable pub update_config_version :
    (Config → Bytes) → (Bytes → Option Config) → Overrides → Bool → String → String → Files → Files
update_config_version encode decode o writes path version files =
    update_loaded encode writes path version (load decode o path files) files

-- from the replacement on, which has succeeded
unfoldable pub finish_update :
    (Config → Bytes)
    → (Bytes → Option Config)
    → Overrides
    → Machine
    → Arguments
    → String
    → Files
    → Exit × World
finish_update encode decode o m args backup files =
    let versioned =
      update_config_version encode decode o m.config_writes args.config_path args.target_version
        files in
    let cleaned = if is_blank args.meta_path then versioned else delete args.meta_path versioned in
    if m.starts then (completed, record { files = cleaned; running = true }) else (
      fatal,
      record {
        files = (replace_file m.rollback_opens m.rollback_renames backup args.target_exe cleaned).1;
        running = m.starts_again;
      },
    )

unfoldable pub main :
    (Config → Bytes)
    → (Bytes → Option Config)
    → Overrides
    → Machine
    → Arguments
    → World
    → Exit × World
main encode decode o m args w =
    let backup = append args.target_exe (append ".bak." args.stamp) in
    let saved = copy_file m.backup_opens args.target_exe backup w.files in
    let replaced = replace_file m.copy_opens m.renames args.new_exe args.target_exe saved.1 in
    if is_blank args.target_exe
      || is_blank args.new_exe
      || is_blank args.config_path
      || is_blank args.target_version
      || not m.found
    then (fatal, w)
    else if not m.stops
    then (fatal, w)
    else if not saved.0
    then (fatal, record { files = saved.1; running = false })
    else if not replaced.0
    then (
      fatal,
      record {
        files =
            (replace_file m.rollback_opens m.rollback_renames backup args.target_exe replaced.1).1;
        running = false;
      },
    )
    else finish_update encode decode o m args backup replaced.1
