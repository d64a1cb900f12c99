-- ===== src/RuntimeUpdate/Tests.antt =====
-- Runs of the manager.
use appcenter_agent.Common.{
  ℕ, ◌+◌, ◌*◌, String, ◌≡◌, refl, ◌⊎◌, inl, Bool, true, false, Option, some, List, [], ◌∷◌, map,
  pos, negsuc, nat_eq, int_eq, string_eq, is_blank,
}
use appcenter_agent.Common.Dict.{Dict, lookup, insert, delete}
use appcenter_agent.Common.Text.{
  trim_left, trim_right, trim_space, trim_slashes, lower_code, lowered, same_codes,
}
use appcenter_agent.Files.{Bytes, Files, verify_file_hash}
use appcenter_agent.Files.{trim_prefix}
use appcenter_agent.Queue.{minute}
use appcenter_agent.RuntimeUpdate.{
  RuntimeConfig, ManifestFile, Reply, Situation, normalize_config, compute_wait, set_aside,
  replace_file, ensure_file,
}
use appcenter_agent.RuntimeUpdate.Loop.{
  Manifest, Answers, State, new_manager, update_config, Event, configure, turn, fetch_manifest,
  sync_once, take_turn, run,
}
use appcenter_agent.RuntimeUpdate.Settling.{IsCurrent, sync_settles}
use appcenter_agent.RuntimeUpdate.Origin.{tray_program, IsOffered, SomeTurn, run_origin}

abbrev toy_hash : Bytes → List ℕ
toy_hash content = map (λ b. b + 97) content

abbrev settings : RuntimeConfig
settings = record { base_url = " http://host/rt/ "; interval_min = pos 0; jitter_sec = negsuc 4 }

waits_an_hour : compute_wait (normalize_config settings) 3 ≡ 60 * minute
unfolding compute_wait normalize_config
waits_an_hour = refl

abbrev manifest : Dict String ManifestFile
manifest = ("appcenter-tray.exe", record { sha256_text = "sha256:bc"; url = "" }) ∷ []

abbrev new_bytes : String → Option Reply
new_bytes url = some (record { status = 200; body = 1 ∷ 2 ∷ []; broken = false })

abbrev stuck : Situation
stuck = record {
  running = false;
  clears = true;
  backs_up = true;
  removes = true;
  swaps = false;
  restores = true;
}

abbrev old_tray : Files
old_tray = ("C:\\appcenter-tray.exe", 9 ∷ []) ∷ []

tray_is_replaced :
    (ensure_file new_bytes toy_hash
      (record stuck { swaps = true })
      settings
      manifest
      "C:"
      "appcenter-tray.exe"
      old_tray).0
    ≡ true
unfolding ensure_file trim_space trim_left trim_right lookup insert delete replace_file set_aside
    verify_file_hash trim_prefix lowered lower_code same_codes
tray_is_replaced = refl

abbrev all_answers : Answers
all_answers = record { server = new_bytes; tray = record stuck { swaps = true }; helper = stuck }

-- the manifest, whatever the body is
abbrev decode : Bytes → Bool → Option (Option Manifest)
decode body broken = some (some manifest)

abbrev two_events : List Event
two_events = configure settings ∷ turn all_answers 3 ∷ []

abbrev at_first : State
at_first = new_manager old_tray

tray_after_turn :
    lookup "C:\\appcenter-tray.exe" (run decode toy_hash "C:" two_events at_first).files
    ≡ some (1 ∷ 2 ∷ [])
unfolding run update_config take_turn sync_once fetch_manifest new_manager normalize_config
    ensure_file trim_space trim_left trim_right lookup insert delete replace_file set_aside
    verify_file_hash trim_prefix lowered lower_code same_codes trim_slashes
tray_after_turn = refl

run_origin_example :
    (lookup "C:\\appcenter-tray.exe" (run decode toy_hash "C:" two_events at_first).files
      ≡ lookup "C:\\appcenter-tray.exe" at_first.files)
    ⊎ SomeTurn decode toy_hash "C:"
        (IsOffered decode toy_hash "C:" tray_program
          (lookup "C:\\appcenter-tray.exe" (run decode toy_hash "C:" two_events at_first).files))
        two_events
run_origin_example =
    run_origin decode toy_hash "C:" tray_program two_events at_first
      (
        (refl, refl, refl, refl, refl),
        (refl, refl, refl, refl, refl),
        (refl, refl, refl),
        (refl, refl, refl),
      )
      (inl refl, tt)

abbrev tray_entry : ManifestFile
tray_entry = record { sha256_text = "sha256:bc"; url = "" }

tray_found : lookup "appcenter-tray.exe" manifest ≡ some tray_entry
unfolding lookup
tray_found = refl

tray_asked : is_blank (trim_space tray_entry.sha256_text) ≡ false
unfolding trim_space trim_left trim_right
tray_asked = refl

fetched : fetch_manifest decode toy_hash "C:" all_answers settings ≡ some manifest
unfolding fetch_manifest
fetched = refl

synced : (sync_once decode toy_hash "C:" all_answers settings old_tray).0 ≡ true
unfolding sync_once fetch_manifest ensure_file trim_space trim_left trim_right lookup insert delete
    replace_file set_aside verify_file_hash trim_prefix lowered lower_code same_codes
synced = refl

sync_settles_example :
    IsCurrent toy_hash
      (trim_space tray_entry.sha256_text)
      "C:\\appcenter-tray.exe"
      (sync_once decode toy_hash "C:" all_answers settings old_tray).1
sync_settles_example =
    sync_settles decode toy_hash "C:" all_answers settings manifest tray_program tray_entry old_tray
      (
        (refl, refl, refl, refl, refl),
        (refl, refl, refl, refl, refl),
        (refl, refl, refl),
        (refl, refl, refl),
      )
      refl fetched tray_found tray_asked synced
