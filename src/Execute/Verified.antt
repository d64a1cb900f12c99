-- ===== src/Execute/Verified.antt =====
-- Only verified files are installed.
use appcenter_agent.Common.{
  ℕ, String, ◌≡◌, refl, ap, subst, Bool, true, false, Option, none, some, List, ◌∷◌, arith, is_some,
  ℤ, pos, negsuc, nat_eq, int_eq, string_eq, length,
}
use appcenter_agent.Common.Dict.{lookup}
use appcenter_agent.Api.{Command}
use appcenter_agent.Common.Text.{resolve_url}
use appcenter_agent.Files.{Bytes, Files, verify_file_hash}
use appcenter_agent.Files.{verdict}
use mathlib.Core.Option.{some-injective}
use appcenter_agent.Config.{Config}
use appcenter_agent.Downloader.Resume.{refused_range}
use appcenter_agent.Downloader.{Response, Server, DownloadResult}
use appcenter_agent.Execute.{
  Process, Installed, install, Executed, failure, conclude_install, check_and_install, renamed,
  after_fetch, execute_command, ext_text, base_path_of, find_existing_download_path,
}

-- What a run promises: an installer is run only on a file that has the hash of the command; without
-- an error an installer was run, and the result names the version of the command.
abbrev pub Verified : (Bytes → List ℕ) → Command → Executed → Type 0
Verified sha256 cmd r =
    ((path : String) (content : Bytes)
      → r.ran ≡ some (path, content)
      → verdict sha256 cmd.file_hash (some content) ≡ some true)
    × (r.error ≡ none → (is_some r.ran ≡ true) × (r.result.installed_version ≡ cmd.app_version))

failure-Verified :
    (sha256 : Bytes → List ℕ) (cmd : Command) (exit d i : ℤ) (err : String) (files : Files)
    → Verified sha256 cmd (failure exit d i err files none)
failure-Verified sha256 cmd exit d i err files = (λ p c e. ground arith, λ e. ground arith)

install-Verified :
    (sha256 : Bytes → List ℕ) (cfg : Config) (cmd : Command) (d i : ℤ) (files : Files)
    (path : String) (content : Bytes) (v : Option Installed)
    → verdict sha256 cmd.file_hash (some content) ≡ some true
    → Verified sha256 cmd (conclude_install cfg cmd d i files path content v)
install-Verified sha256 cfg cmd d i files path content none h =
    failure-Verified sha256 cmd (negsuc 0) d i "install failed: unsupported installer type" files
install-Verified sha256 cfg cmd d i files path content (some (exit, true)) h = (
  λ p c e.
      subst (λ x. verdict sha256 cmd.file_hash (some x) ≡ some true)
        (ap (λ x. x.1) (some-injective _ _ e)) h,
  λ e. ground arith,
)
install-Verified sha256 cfg cmd d i files path content (some (exit, false)) h = (
  λ p c e.
      subst (λ x. verdict sha256 cmd.file_hash (some x) ≡ some true)
        (ap (λ x. x.1) (some-injective _ _ e)) h,
  λ e. (refl, refl),
)

check-Verified :
    (sha256 : Bytes → List ℕ) (process : String → Process) (cfg : Config) (cmd : Command) (d i : ℤ)
    (files : Files) (path : String) (v : Option Bool) (o : Option Bytes)
    → verdict sha256 cmd.file_hash o ≡ v
    → Verified sha256 cmd (check_and_install process cfg cmd d i files path v o)
unfolding check_and_install
check-Verified sha256 process cfg cmd d i files path (some true) (some content) h =
    install-Verified sha256 cfg cmd d i files path content (install process path) h
check-Verified sha256 process cfg cmd d i files path (some true) none h =
    failure-Verified sha256 cmd (negsuc 0) d (pos 0) "hash verification failed" files
check-Verified sha256 process cfg cmd d i files path (some false) o h =
    failure-Verified sha256 cmd (negsuc 0) d (pos 0) "hash mismatch" files
check-Verified sha256 process cfg cmd d i files path none o h =
    failure-Verified sha256 cmd (negsuc 0) d (pos 0) "hash verification failed" files

fetch-Verified :
    (sha256 : Bytes → List ℕ) (process : String → Process) (renames : Bool) (cfg : Config)
    (cmd : Command) (d i : ℤ) (path : String) (r : Option DownloadResult × Files)
    → Verified sha256 cmd (after_fetch sha256 process renames cfg cmd d i path r)
unfolding verify_file_hash
fetch-Verified sha256 process renames cfg cmd d i path (none, files) =
    failure-Verified sha256 cmd (negsuc 0) d (pos 0) "download failed" files
fetch-Verified sha256 process renames cfg cmd d i path (some meta, files) =
    let r =
      renamed renames (ext_text meta.filename) (base_path_of cfg cmd) path (lookup path files)
        files in
    check-Verified sha256 process cfg cmd d i r.1 r.0
      (verify_file_hash sha256 r.1 r.0 cmd.file_hash) (lookup r.0 r.1) refl

-- Whatever the server, the installer and the disk do, executeCommand runs an installer only on
-- bytes that have the hash of the command, and where it returns no error, an installer was run
-- on such bytes and the result names the version of the command.
pub execute_command-Verified :
    (server : Server) (sha256 : Bytes → List ℕ) (process : String → Process) (renames : Bool)
    (d i : ℤ) (cfg : Config) (cmd : Command) (files : Files)
    → Verified sha256 cmd (execute_command server sha256 process renames d i cfg cmd files)
unfolding execute_command
execute_command-Verified server sha256 process renames d i cfg cmd files =
    fetch-Verified sha256 process renames cfg cmd d i
      (find_existing_download_path files (base_path_of cfg cmd)) _

-- Once the file of a task is complete, a server that answers a Range at its end with 416 makes
-- executeCommand fail at the download: no installer is run, and the files stay as they are.
pub complete_never_installed :
    (server : Server) (sha256 : Bytes → List ℕ) (process : String → Process) (renames : Bool)
    (d i : ℤ) (cfg : Config) (cmd : Command) (files : Files) (x : ℕ) (xs : Bytes) (resp : Response)
    → lookup (find_existing_download_path files (base_path_of cfg cmd)) files ≡ some (x ∷ xs)
    → server (resolve_url cfg.server.url cmd.download_url) (some (length (x ∷ xs))) ≡ some resp
    → resp.status ≡ 416
    → execute_command server sha256 process renames d i cfg cmd files
      ≡ failure (negsuc 0) d (pos 0) "download failed" files none
unfolding execute_command
complete_never_installed server sha256 process renames d i cfg cmd files x xs resp there e e' =
    rw
      (refused_range server cfg.download.bandwidth_limit_kbps
        (resolve_url cfg.server.url cmd.download_url)
        (find_existing_download_path files (base_path_of cfg cmd)) files x xs resp there e e')
      refl
