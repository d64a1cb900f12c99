-- ===== src/Updater/Tests.antt =====
-- Runs of the updater, and each theorem at an input that meets its hypotheses.
use appcenter_agent.Common.{
  ◌&&◌, not, ℕ, ◌+◌, String, ◌≡◌, refl, ◌≢◌, true, false, none, some, List, [], ◌∷◌, map, nat_eq,
  int_eq, string_eq,
}
use appcenter_agent.Common.Dict.{lookup, insert}
use appcenter_agent.Common.Text.{
  codes, trim_left, trim_right, trim_space, trim_slashes, lower_code, lowered, same_codes,
}
use appcenter_agent.Json.{JsonObject, text, get_text}
use appcenter_agent.Files.{Bytes, verify_file_hash}
use appcenter_agent.Config.{default_config}
use appcenter_agent.Downloader.{Server, download_file, on_response, store_body}
use appcenter_agent.Updater.Version.{
  Semver, is_newer_version, sanitize_version, extract_semver3, atoi, semver_of,
}
use appcenter_agent.Updater.Order.{has_version, newer_order}
use appcenter_agent.Updater.Parse.{extract_lem}
use appcenter_agent.Updater.Staging.{Staged, stage_lem, complete_never_staged}
use appcenter_agent.Updater.Applying.{Applicable, apply_checks, stage_then_apply}
use appcenter_agent.Files.{trim_prefix}
use appcenter_agent.Updater.{
  wrote, cut_short, unreadable, StagedUpdate, Storage, absent, staged, Disk, done, staged_update,
  stage_if_needed, restart, helper_call, apply_if_pending,
}

sanitized : sanitize_version "1.0.0 / build:1" ≡ "1.0.0___build_1"
unfolding sanitize_version
sanitized = refl

abbrev one : Semver
one = record { major = 1; minor = 0; patch = 0 }

abbrev one_two : Semver
one_two = record { major = 1; minor = 2; patch = 0 }

abbrev two : Semver
two = record { major = 2; minor = 0; patch = 0 }

two_is_newer : is_newer_version "v2 / build:7" "1.2" ≡ true
unfolding is_newer_version extract_semver3
two_is_newer = refl

newer_order_example :
    (is_newer_version "v2" "v2" ≡ false)
    × ((has_version "v2"
          && has_version "1.2"
          && is_newer_version "v2" "1.2"
          && is_newer_version "1.2" "v2")
        ≡ false)
    × ((has_version "v2"
          && has_version "1.2"
          && has_version "1.0.0"
          && is_newer_version "v2" "1.2"
          && is_newer_version "1.2" "1.0.0"
          && not (is_newer_version "v2" "1.0.0"))
        ≡ false)
newer_order_example = newer_order "v2" "1.2" "1.0.0"

extract_lem_example :
    extract_semver3 (codes "v10.2.3-rc")
    ≡ semver_of (atoi (codes "10")) (atoi (codes "2")) (atoi (codes "3"))
extract_lem_example =
    extract_lem (codes "v") 49 (48 ∷ []) 50 [] 51 [] (codes "-rc") (refl, tt) (refl, (refl, tt))
      (refl, tt) (refl, tt) refl

-- a stand-in for SHA-256
abbrev pub toy_hash : Bytes → List ℕ
toy_hash content = map (λ b. b + 97) content

abbrev pub update_server : Server
update_server url none =
    some (record { status = 200; body = 1 ∷ 2 ∷ []; broken = false; filename = none })
update_server url (some n) =
    some (record { status = 416; body = []; broken = false; filename = none })

abbrev pub storage : Storage
storage = record { makes_folder = true; writes = wrote }

abbrev pub update_offer : JsonObject
update_offer =
    ("latest_agent_version", text "2.0.0")
    ∷ ("agent_download_url", text "/agent.exe")
    ∷ ("agent_hash", text "sha256:bc")
    ∷ []

abbrev pub fresh : Disk
fresh = record { files = []; pending = absent }

abbrev new_exe : String
new_exe = "C:\\ProgramData\\AppCenter\\downloads\\agent-update-2.0.0.exe"

pub is_staged :
    (stage_if_needed update_server toy_hash storage 0 default_config update_offer fresh).0 ≡ done
unfolding stage_if_needed get_text lookup insert lowered lower_code trim_right trim_left trim_space
    is_newer_version extract_semver3 download_file on_response store_body verify_file_hash
    trim_prefix same_codes sanitize_version trim_slashes
is_staged = refl

stage_lem_example :
    Staged toy_hash wrote 0 default_config update_offer fresh
      (stage_if_needed update_server toy_hash storage 0 default_config update_offer fresh).0
      (stage_if_needed update_server toy_hash storage 0 default_config update_offer fresh).1
stage_lem_example = stage_lem update_server toy_hash storage 0 default_config update_offer fresh

stage_then_apply_example :
    apply_if_pending toy_hash true default_config "c.yaml" "svc.exe"
      (stage_if_needed update_server toy_hash storage 0 default_config update_offer fresh).1
    ≡ restart (
        helper_call default_config "c.yaml" "svc.exe" (staged_update 0 default_config update_offer))
stage_then_apply_example =
    stage_then_apply update_server toy_hash storage 0 default_config update_offer fresh "c.yaml"
      "svc.exe" is_staged refl refl refl

abbrev pub update_two : StagedUpdate
update_two = record {
  version = "2.0.0";
  file_path = "u";
  hash = "bc";
  force = false;
  staged_at_utc = 0;
  source_url = "";
  agent_version = "0.0.0";
}

-- the metadata of an update staged before is lost when the disk is full
torn :
    (stage_if_needed update_server toy_hash
      (record storage { writes = cut_short })
      0
      default_config
      update_offer
      (record fresh { pending = staged update_two })).1.pending
    ≡ unreadable
unfolding stage_if_needed get_text lookup insert lowered lower_code trim_right trim_left trim_space
    is_newer_version extract_semver3 download_file on_response store_body verify_file_hash
    trim_prefix same_codes sanitize_version trim_slashes
torn = refl

abbrev pub with_update : Disk
with_update = record { files = ("u", 1 ∷ 2 ∷ []) ∷ []; pending = staged update_two }

pub is_applied :
    apply_if_pending toy_hash true default_config "c.yaml" "svc.exe" with_update
    ≡ restart (helper_call default_config "c.yaml" "svc.exe" update_two)
unfolding apply_if_pending lookup lowered lower_code is_newer_version extract_semver3
    verify_file_hash trim_prefix same_codes
is_applied = refl

apply_checks_example :
    (m : StagedUpdate) × Applicable toy_hash default_config "svc.exe" with_update m
    × (helper_call default_config "c.yaml" "svc.exe" update_two
        ≡ helper_call default_config "c.yaml" "svc.exe" m)
apply_checks_example =
    apply_checks toy_hash true default_config "c.yaml" "svc.exe" with_update
      (helper_call default_config "c.yaml" "svc.exe" update_two) is_applied

abbrev downloaded : Disk
downloaded = record { files = (new_exe, 1 ∷ 2 ∷ []) ∷ []; pending = absent }

complete_never_staged_example :
    ((stage_if_needed update_server toy_hash storage 0 default_config update_offer downloaded).0
      ≢ done)
    × ((stage_if_needed update_server toy_hash storage 0 default_config update_offer downloaded).1
        ≡ downloaded)
unfolding get_text lookup sanitize_version trim_slashes trim_right
complete_never_staged_example =
    complete_never_staged update_server toy_hash storage 0 default_config update_offer downloaded 1
      (2 ∷ []) (record { status = 416; body = []; broken = false; filename = none }) refl refl refl
