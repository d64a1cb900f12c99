-- ===== src/Service/SelfUpdate.antt =====
-- The updates of the agent in runAgent of cmd/service/core.go: extractSelfUpdateChanges,
-- isPayloadForCurrentPlatform, applySelfUpdateChanges, and what a result of the heartbeat does. The
-- number of pending tasks is read anew before each ApplyIfPending, since other goroutines add tasks.
use appcenter_agent.Common.{
  ℕ, String, Bool, true, Option, none, some, List, [], ◌∷◌, if◌then◌else◌, nat_beq, nat_eq, int_eq,
  string_eq, is_blank,
}
use appcenter_agent.Common.Dict.{lookup, insert}
use appcenter_agent.Common.Text.{trim_space, lowered, same_codes}
use appcenter_agent.Json.{Json, JsonObject, get_text}
use appcenter_agent.Files.{Bytes}
use appcenter_agent.Config.{Config}
use appcenter_agent.Downloader.{Server}
use appcenter_agent.Updater.{
  Disk, Storage, StageResult, skipped, failed, done, stage_if_needed, HelperCall, ApplyResult,
  nothing, refused, restart, apply_if_pending,
}

-- A decoded payload: its entries, and the object under "changes", if there is one.
pub record Payload : Type 0 where
  pub entries : JsonObject
  pub changes : Option JsonObject

-- what the updates depend on
pub record World : Type 0 where
  pub server : Server
  pub sha256 : Bytes → List ℕ
  pub io : Storage
  pub now : ℕ
  pub starts : Bool
  pub cfg : Config
  pub cfg_path : String
  pub service_exe : String

-- isPayloadForCurrentPlatform; `goos` is runtime.GOOS. Lowering does not change what is trimmed.
unfoldable pub is_payload_for_current_platform : String → Payload → Bool
is_payload_for_current_platform goos payload =
    let target = trim_space (get_text payload.entries "platform") in
    if is_blank target then true else same_codes (lowered target) (lowered goos)

-- the object that the changes are taken from
abbrev pub source_of : JsonObject → Option JsonObject → JsonObject
source_of entries none = entries
source_of entries (some []) = entries
source_of entries (some (entry ∷ wrapped)) = entry ∷ wrapped

abbrev pub set_key : String → Option Json → JsonObject → JsonObject
set_key key none changes = changes
set_key key (some v) changes = insert key v changes

-- if v, ok := payload[key]; ok { changes[key] = v }
unfoldable pub copy_key : String → JsonObject → JsonObject → JsonObject
copy_key key source changes = set_key key (lookup key source) changes

-- extractSelfUpdateChanges
unfoldable pub extract_self_update_changes : Payload → JsonObject
extract_self_update_changes payload =
    let source = source_of payload.entries payload.changes in
    copy_key "mode" source (
      copy_key "agent_hash" source
        (copy_key "agent_download_url" source (copy_key "latest_agent_version" source [])))

-- the helper that was started, whereupon the service is to restart
abbrev pub started : ApplyResult → Option HelperCall
started nothing = none
started refused = none
started (restart call) = some call

-- ApplyIfPending where no task is pending
unfoldable pub apply_when_idle : World → ℕ → Disk → Option HelperCall
apply_when_idle w pending disk =
    if nat_beq pending 0
    then started (apply_if_pending w.sha256 w.starts w.cfg w.cfg_path w.service_exe disk)
    else none

unfoldable pub stage : World → JsonObject → Disk → StageResult × Disk
stage w changes disk = stage_if_needed w.server w.sha256 w.io w.now w.cfg changes disk

-- an error of the staging ends the update
unfoldable pub apply_after : World → ℕ → StageResult × Disk → Option HelperCall × Disk
unfolding apply_when_idle
apply_after w pending (failed, disk) = (none, disk)
apply_after w pending (skipped, disk) = (apply_when_idle w pending disk, disk)
apply_after w pending (done, disk) = (apply_when_idle w pending disk, disk)

abbrev pub unless_started :
    Option HelperCall → Disk → Option HelperCall × Disk → Option HelperCall × Disk
unless_started (some call) disk rest = (some call, disk)
unless_started none disk rest = rest

-- applySelfUpdateChanges: `before` and `after` tasks are pending at its two checks
unfoldable pub apply_self_update_changes :
    World → ℕ → ℕ → JsonObject → Disk → Option HelperCall × Disk
unfolding apply_when_idle stage apply_after
apply_self_update_changes w before after [] disk = (none, disk)
apply_self_update_changes w before after (change ∷ changes) disk =
    unless_started (apply_when_idle w before disk) disk
      (apply_after w after (stage w (change ∷ changes) disk))

-- OnBroadcastSelfUpdate
unfoldable pub on_broadcast_self_update :
    String → World → ℕ → ℕ → Payload → Disk → Option HelperCall × Disk
unfolding is_payload_for_current_platform extract_self_update_changes apply_self_update_changes
on_broadcast_self_update goos w before after payload disk =
    if is_payload_for_current_platform goos payload
    then apply_self_update_changes w before after (extract_self_update_changes payload) disk
    else (none, disk)

abbrev pub or_no_changes : Option JsonObject → JsonObject
or_no_changes none = []
or_no_changes (some m) = m

-- the first two calls for a result of the heartbeat
unfoldable pub on_poll_result : World → ℕ → Option JsonObject → Disk → Option HelperCall × Disk
unfolding apply_when_idle stage
on_poll_result w pending config disk =
    unless_started (apply_when_idle w pending disk) disk
      (none, (stage w (or_no_changes config) disk).1)
