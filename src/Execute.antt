-- ===== src/Execute.antt =====
-- executeCommand of cmd/service/core.go with internal/installer: from the command of the server to the
-- installer. That the folder for downloads can be made is taken for granted. An error is kept by the
-- text that it starts with.
pub mod Names
pub mod Verified
pub mod Tests
use Prim.Native.Char.{Char, code}
use appcenter_agent.Common.{
  ℕ, zero, suc, ◌+◌, ◌-◌, ◌*◌, ◌/◌, ◌%◌, ◌^◌, ◌≤◌, ◌<◌, String, ◌≡◌, refl, sym, ap, ◌∙◌, subst, ◌≢◌,
  ◌↔◌, ◌⊎◌, inl, inr, Bool, true, false, not, ◌&&◌, ◌||◌, Option, none, some, List, [], ◌∷◌, ◌++◌,
  map, arith, eq_iff, ltb, leb, if◌then◌else◌, ltb→lt, lt→ltb, leb→le, tests, Bool-cases,
  Option-cases, is_some, ℤ, pos, negsuc, int_beq, int_ltb, is_positive, int_beq_iff, int_ltb_irrefl,
  int_ltb_asymm, int_ltb_neg_trans, int_ltb_antisymm, HasEq, ◌==◌, nat_eq, int_eq, string_eq,
  is_blank, or_empty, first_non_blank, length, keep_if, head?, length-append, All, All-mono,
  All-map, All-of_map, All-keep_if, All-of_keep_if, All-both,
}
use appcenter_agent.Common.Dict.{
  Dict, lookup, contains, values, keys, Distinct, insert, delete, lookup-insert, lookup-delete,
  contains-insert, lookup-insert_self, lookup-delete_self, contains-delete, Distinct-insert,
  Distinct-delete, All-insert, All-delete, All-lookup, lookup_own,
}
use appcenter_agent.Common.Sort.{
  place, sort, All-place, All-sort, head-sort-All, head-sort-none, head-sort-min,
}
use appcenter_agent.Api.{
  Command, TaskStatusRequest, InstalledApp, RemoteSupportRequest, RemoteSupportEnd,
}
use appcenter_agent.Common.Text.{
  codes, is_space, trim_left, trim_right, trim_space, trim_slashes, lower_code, lowered, same_codes,
  same_codes_refl, append, starts_with_slash, resolve_url, join,
}
use appcenter_agent.Json.{
  Json, JsonObject, null, flag, number, text, other, get_text, text_or_empty,
}
use appcenter_agent.Files.{Bytes, Files, verify_file_hash}
use appcenter_agent.Config.{Config}
use appcenter_agent.Queue.{ExecutionResult}
use appcenter_agent.Downloader.{Server, DownloadResult, download_file, is_separator}
use appcenter_agent.Execute.Names.{show_int, ext, has_ext}

-- How an installer's process ends: with an exit code, or without one.
pub data Process : Type 0 where
  exited : ℤ → Process
  broken_off : Process

-- an exit code, and an error
abbrev pub Installed : Type 0
Installed = ℤ × Bool

-- installMSI, with the codes for a reboot that is due
abbrev pub install_msi : Process → Installed
install_msi (exited c) = (c, not (c == pos 0 || c == pos 3010 || c == pos 1641))
install_msi broken_off = (negsuc 0, true)

-- installEXE and installPowerShell
abbrev pub install_exe : Process → Installed
install_exe (exited c) = (c, not (c == pos 0))
install_exe broken_off = (negsuc 0, true)

-- Install, by the extension of the file; `none` if no installer is run
unfoldable pub install : (String → Process) → String → Option Installed
unfolding has_ext
install process path =
    if has_ext path ".msi"
    then some (install_msi (process path))
    else if has_ext path ".exe" || has_ext path ".ps1"
    then some (install_exe (process path))
    else none

abbrev pub first_of : Files → String → List String → String
first_of files otherwise [] = otherwise
first_of files otherwise (c ∷ cs) =
    let rest = first_of files otherwise cs in if contains c files then c else rest

-- findExistingDownloadPath
unfoldable pub find_existing_download_path : Files → String → String
find_existing_download_path files base_path =
    first_of files (append base_path ".bin")
      (map (λ e. append base_path e) (".msi" ∷ ".exe" ∷ ".ps1" ∷ ".bin" ∷ []))

unfoldable pub base_path_of : Config → Command → String
base_path_of cfg cmd =
    join cfg.download.temp_dir
      (append "task_" (append (show_int cmd.task_id) (append "_app_" (show_int cmd.app_id))))

-- What a run leaves: its result, its error if it has one, the files, and what an installer was run
-- on, by its path and bytes.
pub record Executed : Type 0 where
  pub result : ExecutionResult
  pub error : Option String
  pub files : Files
  pub ran : Option (String × Bytes)

abbrev pub result_with : ℤ → String → ℤ → ℤ → String → ExecutionResult
result_with exit version d i msg = record {
  exit_code = exit;
  installed_version = version;
  download_duration_sec = d;
  install_duration_sec = i;
  message = msg;
}

abbrev pub failure : ℤ → ℤ → ℤ → String → Files → Option (String × Bytes) → Executed
failure exit d i err files ran = record {
  result = result_with exit "" d i "";
  error = some err;
  files = files;
  ran = ran;
}

abbrev pub success : Config → Command → ℤ → ℤ → ℤ → Files → String → Bytes → Executed
success cfg cmd exit d i files path content = record {
  result = result_with exit cmd.app_version d i "Installation completed successfully";
  error = none;
  files = if cfg.install.enable_auto_cleanup then delete path files else files;
  ran = some (path, content);
}

-- the installer's verdict
abbrev pub conclude_install :
    Config → Command → ℤ → ℤ → Files → String → Bytes → Option Installed → Executed
conclude_install cfg cmd d i files path content none =
    failure (negsuc 0) d i "install failed: unsupported installer type" files none
conclude_install cfg cmd d i files path content (some (exit, true)) =
    failure exit d i "install failed" files (some (path, content))
conclude_install cfg cmd d i files path content (some (exit, false)) =
    success cfg cmd exit d i files path content

-- from the check of the hash on
abbrev pub check_and_install :
    (String → Process)
    → Config
    → Command
    → ℤ
    → ℤ
    → Files
    → String
    → Option Bool
    → Option Bytes
    → Executed
unfolding install
check_and_install process cfg cmd d i files path (some true) (some content) =
    conclude_install cfg cmd d i files path content (install process path)
check_and_install process cfg cmd d i files path (some true) none =
    failure (negsuc 0) d (pos 0) "hash verification failed" files none
check_and_install process cfg cmd d i files path (some false) o =
    failure (negsuc 0) d (pos 0) "hash mismatch" files none
check_and_install process cfg cmd d i files path none o =
    failure (negsuc 0) d (pos 0) "hash verification failed" files none

abbrev pub ext_text : String → Option String
ext_text name =
    if has_ext name ".msi"
    then some ".msi"
    else if has_ext name ".exe"
    then some ".exe"
    else if has_ext name ".ps1"
    then some ".ps1"
    else none

-- the rename to the extension that the server's file name has, with the path and the files after it
abbrev pub renamed : Bool → Option String → String → String → Option Bytes → Files → String × Files
renamed renames none base_path path o files = (path, files)
renamed renames (some e) base_path path none files = (path, files)
renamed renames (some e) base_path path (some content) files =
    let candidate = append base_path e in
    if not (candidate == path) && renames
    then (candidate, insert candidate content (delete path files))
    else (path, files)

abbrev pub after_fetch :
    (Bytes → List ℕ)
    → (String → Process)
    → Bool
    → Config
    → Command
    → ℤ
    → ℤ
    → String
    → Option DownloadResult × Files
    → Executed
after_fetch sha256 process renames cfg cmd d i path (none, files) =
    failure (negsuc 0) d (pos 0) "download failed" files none
after_fetch sha256 process renames cfg cmd d i path (some meta, files) =
    let (install_path, files') =
      renamed renames (ext_text meta.filename) (base_path_of cfg cmd) path (lookup path files)
        files in
    check_and_install process cfg cmd d i files' install_path
      (verify_file_hash sha256 files' install_path cmd.file_hash) (lookup install_path files')

-- executeCommand; `renames` tells whether a file can be renamed, `d` and `i` are the seconds that the
-- download and the installer took
unfoldable pub execute_command :
    Server
    → (Bytes → List ℕ)
    → (String → Process)
    → Bool
    → ℤ
    → ℤ
    → Config
    → Command
    → Files
    → Executed
execute_command server sha256 process renames d i cfg cmd files =
    let path = find_existing_download_path files (base_path_of cfg cmd) in
    after_fetch sha256 process renames cfg cmd d i path (
      download_file server cfg.download.bandwidth_limit_kbps
        (resolve_url cfg.server.url cmd.download_url) path files)
