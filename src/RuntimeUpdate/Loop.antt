-- ===== src/RuntimeUpdate/Loop.antt =====
-- The loop of internal/runtimeupdate/manager.go: Start, UpdateConfig, syncOnce and fetchManifest. What
-- the network and Windows answer in a turn is part of the turn. `decode` reads the manifest from a body
-- and whether that broke off: no answer for an error, and none in it for a manifest without files.
use appcenter_agent.Common.{
  ℕ, String, Bool, true, false, not, Option, none, some, List, [], ◌∷◌, if◌then◌else◌, pos, ◌==◌,
  nat_eq, int_eq, string_eq, is_blank,
}
use appcenter_agent.Common.Dict.{Dict}
use appcenter_agent.Common.Text.{append}
use appcenter_agent.Files.{Bytes, Files}
use appcenter_agent.Queue.{minute}
use appcenter_agent.RuntimeUpdate.{
  RuntimeConfig, ManifestFile, normalize_config, compute_wait, Reply, Situation, ensure_file,
}

abbrev pub Manifest : Type 0
Manifest = Dict String ManifestFile

abbrev pub tray_exe : String
tray_exe = "appcenter-tray.exe"

abbrev pub helper_exe : String
helper_exe = "rshelper.exe"

pub record Answers : Type 0 where
  pub server : String → Option Reply
  pub tray : Situation
  pub helper : Situation

-- the manager, whether something is in its wakeCh, and the files
pub record State : Type 0 where
  pub cfg : RuntimeConfig
  pub woken : Bool
  pub files : Files

-- NewManager
unfoldable pub new_manager : Files → State
new_manager files = record {
  cfg = record { base_url = ""; interval_min = pos 60; jitter_sec = pos 300 };
  woken = false;
  files = files;
}

-- UpdateConfig
unfoldable pub update_config : RuntimeConfig → State → State
unfolding normalize_config
update_config cfg s = record s { cfg = normalize_config cfg; woken = true }

pub data Event : Type 0 where
  configure : RuntimeConfig → Event
  turn : Answers → ℕ → Event

module _ (decode : Bytes → Bool → Option (Option Manifest)) (sha256 : Bytes → List ℕ)
    (exe_dir : String) where
  -- a manifest without files has none
  abbrev pub files_of : Option (Option Manifest) → Option Manifest
  files_of none = none
  files_of (some none) = some []
  files_of (some (some manifest)) = some manifest

  abbrev pub manifest_of : Option Reply → Option Manifest
  manifest_of none = none
  manifest_of (some r) = if not (r.status == 200) then none else files_of (decode r.body r.broken)

  unfoldable pub fetch_manifest : Answers → RuntimeConfig → Option Manifest
  fetch_manifest a cfg = manifest_of (a.server (append cfg.base_url "/manifest.json"))

  -- the helper after the tray, unless that failed
  abbrev pub then_helper : Answers → RuntimeConfig → Manifest → Bool × Files → Bool × Files
  then_helper a cfg manifest (ok, files) =
      if not ok
      then (false, files)
      else ensure_file a.server sha256 a.helper cfg manifest exe_dir helper_exe files

  abbrev pub sync_with : Answers → RuntimeConfig → Files → Option Manifest → Bool × Files
  sync_with a cfg files none = (false, files)
  sync_with a cfg files (some manifest) =
      then_helper a cfg manifest
        (ensure_file a.server sha256 a.tray cfg manifest exe_dir tray_exe files)

  -- syncOnce: whether it returns no error, and the files after it
  unfoldable pub sync_once : Answers → RuntimeConfig → Files → Bool × Files
  unfolding fetch_manifest ensure_file
  sync_once a cfg files = sync_with a cfg files (fetch_manifest a cfg)

  -- one turn of the loop, and how long it waits at most: not at all when it has been woken
  unfoldable pub take_turn : Answers → ℕ → State → ℕ × State
  unfolding sync_once compute_wait
  take_turn a drawn s =
      let wait = if is_blank s.cfg.base_url then minute else compute_wait s.cfg drawn in
      let synced = if is_blank s.cfg.base_url then (true, s.files) else sync_once a s.cfg s.files in
      (if s.woken then 0 else wait, record s { woken = false; files = synced.1 })

  abbrev pub apply : Event → State → State
  unfolding update_config take_turn
  apply (configure cfg) s = update_config cfg s
  apply (turn a drawn) s = (take_turn a drawn s).1

  unfoldable pub run : List Event → State → State
  unfolding apply
  run [] s = s
  run (e ∷ events) s = run events (apply e s)
