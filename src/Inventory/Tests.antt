-- ===== src/Inventory/Tests.antt =====
-- Runs of the inventory.
use appcenter_agent.Common.{
  ℕ, ◌*◌, ◌^◌, ◌≤◌, String, ◌≡◌, refl, ◌↔◌, true, none, some, List, [], ◌∷◌, ◌++◌, arith, pos,
  nat_eq, int_eq, string_eq, All,
}
use appcenter_agent.Common.Dict.{lookup, insert}
use appcenter_agent.Common.Text.{append}
use appcenter_agent.Common.Reorder.{Pairs}
use appcenter_agent.Inventory.{
  SoftwareItem, Manager, new_manager, compute_hash, panicked, returned, text_length, force_scan,
  sync_if_requested, name_less,
}
use appcenter_agent.Inventory.Syncing.{force_scan-panicked_iff}
use appcenter_agent.Inventory.Scanning.{scan_now, run}
use appcenter_agent.Inventory.Appx.{
  AppxPkg, shorten_appx_name, is_identifier, guid_like, hex_like, base_of, last_segment, equal_fold,
  join_dots,
}
use appcenter_agent.Inventory.AppxCache.{scan_appx_packages_all_users}
use appcenter_agent.Inventory.Scanner.{
  Key, scan_installed_software, infer_architecture, dedup_key, read_software_item, number_or_zero,
  any_hint,
}
use appcenter_agent.Inventory.Unique.{first_listed, Separate, HasName, first_with, all_listed}
use appcenter_agent.Inventory.Recency.{
  Event, query, restart, no_cache, found_items, IsRecent, scan-IsRecent,
}
use appcenter_agent.Inventory.Recency as Recency

abbrev item_of : String → String → SoftwareItem
item_of name version = record {
  name = name;
  version = version;
  publisher = "";
  install_date = "";
  estimated_size_kb = pos 0;
  architecture = "";
}

abbrev vlc : SoftwareItem
vlc = item_of "VLC" "3.0"

abbrev seven_zip : SoftwareItem
seven_zip = item_of "7-Zip" "24"

-- the name of the first item, in front of a text as long as a hash
abbrev first_name : List SoftwareItem → String
first_name [] = "0123456789abcdef"
first_name (item ∷ items) = append "0123456789abcdef" item.name

first_name-long : (l : List SoftwareItem) → 12 ≤ text_length (first_name l)
first_name-long [] = omega arith
first_name-long (item ∷ items) = omega arith

abbrev empty : List SoftwareItem
empty = []

force_scan-panicked_iff_example : (force_scan first_name [] 5 new_manager ≡ panicked) ↔ (empty ≡ [])
force_scan-panicked_iff_example =
    force_scan-panicked_iff first_name first_name-long [] 5 new_manager

abbrev scanned : Manager
scanned = record {
  last_hash = "0123456789abcdef7-Zip";
  last_items = vlc ∷ seven_zip ∷ [];
  scan_interval_min = pos 10;
  last_scan_time = some 5;
}

scanned-run : run first_name (scan_now (vlc ∷ seven_zip ∷ []) 5 ∷ []) new_manager ≡ some scanned
unfolding run force_scan new_manager compute_hash name_less
scanned-run = refl

synced :
    sync_if_requested true scanned
    ≡ some (record {
      inventory_hash = "0123456789abcdef7-Zip";
      software_count = 2;
      items = vlc ∷ seven_zip ∷ [];
    })
unfolding sync_if_requested
synced = refl

forced : force_scan first_name (vlc ∷ seven_zip ∷ []) 5 new_manager ≡ returned true scanned
unfolding force_scan new_manager compute_hash name_less
forced = refl

abbrev vlc_key : Key
vlc_key = record {
  strings = ("DisplayName", "VLC") ∷ ("DisplayVersion", "3.0") ∷ [];
  integers = [];
}

first_listed_example :
    Pairs Separate
      (scan_installed_software (some (some vlc_key ∷ []) ∷ none ∷ []) (vlc ∷ seven_zip ∷ []))
    × All HasName
        (scan_installed_software (some (some vlc_key ∷ []) ∷ none ∷ []) (vlc ∷ seven_zip ∷ []))
    × ((k : String)
        → first_with k
            (scan_installed_software (some (some vlc_key ∷ []) ∷ none ∷ []) (vlc ∷ seven_zip ∷ []))
          ≡ first_with k
              (all_listed (some (some vlc_key ∷ []) ∷ none ∷ []) ++ (vlc ∷ seven_zip ∷ [])))
first_listed_example = first_listed (some (some vlc_key ∷ []) ∷ none ∷ []) (vlc ∷ seven_zip ∷ [])

scan_once :
    scan_installed_software (some (some vlc_key ∷ []) ∷ none ∷ []) (vlc ∷ seven_zip ∷ [])
    ≡ vlc ∷ seven_zip ∷ []
unfolding scan_installed_software lookup insert read_software_item number_or_zero any_hint
scan_once = refl

-- two programs whose names and versions are written alike
collision : dedup_key (item_of "Tool" "1|2") ≡ dedup_key (item_of "Tool|1" "2")
unfolding dedup_key
collision = refl

-- a 64-bit program that names its architecture x86_64
misnamed :
    infer_architecture (record { strings = ("DisplayName", "Tool x86_64") ∷ []; integers = [] })
    ≡ "x86"
unfolding infer_architecture lookup any_hint
misnamed = refl

shortened_runtime : shorten_appx_name "Microsoft.WindowsAppRuntime.1.5" ≡ "WindowsAppRuntime 1.5"
unfolding shorten_appx_name base_of last_segment equal_fold join_dots
shortened_runtime = refl

shortened_main :
    shorten_appx_name "MicrosoftCorporationII.WinAppRuntime.Main.1.5" ≡ "WinAppRuntime 1.5"
unfolding shorten_appx_name base_of last_segment equal_fold join_dots
shortened_main = refl

shortened_name : shorten_appx_name "40174MouriNaruto.NanaZip" ≡ "NanaZip"
unfolding shorten_appx_name base_of last_segment equal_fold join_dots
shortened_name = refl

guid_found : is_identifier "1527c705-839a-4832-9118-54d4Bd6a0c89" ≡ true
unfolding guid_like
guid_found = refl

hex_found : is_identifier "0123456789aB" ≡ true
unfolding guid_like hex_like
hex_found = refl

abbrev nanazip : AppxPkg
nanazip = record {
  name = "40174MouriNaruto.NanaZip";
  version = "5.0";
  publisher = "";
  architecture = "X64";
}

abbrev one_hour : ℕ
one_hour = 3600 * 10 ^ 9

scan-IsRecent_example :
    IsRecent
      (2 * one_hour)
      (found_items none)
      (scan_appx_packages_all_users true
        (2 * one_hour)
        none
        (Recency.run (query true one_hour (some (nanazip ∷ [])) ∷ restart ∷ []) no_cache).0).0
      (Recency.run (query true one_hour (some (nanazip ∷ [])) ∷ restart ∷ []) no_cache).1
scan-IsRecent_example =
    scan-IsRecent (query true one_hour (some (nanazip ∷ [])) ∷ restart ∷ []) true (2 * one_hour)
      none
