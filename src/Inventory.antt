-- ===== src/Inventory.antt =====
-- The software inventory of internal/inventory/inventory.go: when it is scanned, its hash, and what
-- is submitted to the server. What a scan finds is an input; the hexadecimal SHA-256 of the JSON of
-- a list of items is the parameter `digest`. An instant is a number of nanoseconds of the monotonic
-- clock, and `none` is Go's zero time.
pub mod Appx
pub mod AppxCache
pub mod Recency
pub mod Scanner
pub mod Scanning
pub mod Syncing
pub mod Unique
pub mod Tests
use appcenter_agent.Common.{
  ℕ, zero, suc, ◌+◌, ◌-◌, ◌*◌, ◌/◌, ◌%◌, ◌^◌, ◌≤◌, ◌<◌, String, ◌≡◌, refl, sym, ap, ◌∙◌, subst, ◌≢◌,
  ◌↔◌, ◌⊎◌, inl, inr, Bool, true, false, not, ◌&&◌, ◌||◌, Option, none, some, List, [], ◌∷◌, ◌++◌,
  map, arith, eq_iff, ltb, leb, if◌then◌else◌, nat_beq, ltb→lt, lt→ltb, leb→le, tests, Bool-cases,
  Option-cases, is_some, ℤ, pos, negsuc, int_beq, int_ltb, is_positive, int_beq_iff, int_ltb_irrefl,
  int_ltb_asymm, int_ltb_neg_trans, int_ltb_antisymm, HasEq, ◌==◌, nat_eq, int_eq, string_eq,
  is_blank, or_empty, first_non_blank, length, keep_if, head?, length-append, All, All-mono,
  All-map, All-of_map, All-keep_if, All-of_keep_if, All-both,
}
use appcenter_agent.Common.Dict.{
  Dict, lookup, contains, values, keys, Distinct, insert, delete, lookup-insert, lookup-delete,
  contains-insert, lookup-insert_self, lookup-delete_self, contains-delete, Distinct-insert,
  Distinct-delete, All-insert, All-delete, All-lookup, lookup_own,
}
use appcenter_agent.Common.Sort.{
  place, sort, All-place, All-sort, head-sort-All, head-sort-none, head-sort-min,
}
use appcenter_agent.Api.{
  Command, TaskStatusRequest, InstalledApp, RemoteSupportRequest, RemoteSupportEnd,
}
use appcenter_agent.Common.Text.{
  codes, is_space, trim_left, trim_right, trim_space, trim_slashes, lower_code, lowered, same_codes,
  same_codes_refl, append, starts_with_slash, resolve_url, join,
}
use appcenter_agent.Json.{
  Json, JsonObject, null, flag, number, text, other, get_text, text_or_empty,
}
use appcenter_agent.Common.Order.{code_less}

-- SoftwareItem
pub record SoftwareItem : Type 0 where
  pub name : String
  pub version : String
  pub publisher : String
  pub install_date : String
  pub estimated_size_kb : ℤ
  pub architecture : String

-- SubmitRequest
pub record SubmitRequest : Type 0 where
  pub inventory_hash : String
  pub software_count : ℕ
  pub items : List SoftwareItem

-- Manager
pub record Manager : Type 0 where
  pub last_hash : String
  pub last_items : List SoftwareItem
  pub scan_interval_min : ℤ
  pub last_scan_time : Option ℕ

-- NewManager
unfoldable pub new_manager : Manager
new_manager = record {
  last_hash = "";
  last_items = [];
  scan_interval_min = pos 10;
  last_scan_time = none;
}

-- SetScanInterval
unfoldable pub set_scan_interval : ℤ → Manager → Manager
set_scan_interval minutes m =
    if is_positive minutes then record m { scan_interval_min = minutes } else m

-- sorted[i].Name < sorted[j].Name
unfoldable pub name_less : SoftwareItem → SoftwareItem → Bool
unfolding code_less
name_less i j = code_less (codes i.name) (codes j.name)

-- computeHash
unfoldable pub compute_hash : (List SoftwareItem → String) → List SoftwareItem → String
unfolding name_less sort
compute_hash digest [] = "empty"
compute_hash digest (item ∷ items) = digest (sort name_less (item ∷ items))

-- what a scan does: the log line takes the first twelve characters of the hash, and panics where
-- there are fewer
pub data Scan : Type 0 where
  panicked : Scan
  returned : Bool → Manager → Scan

abbrev pub text_length : String → ℕ
text_length s = length (codes s)

abbrev pub store_scan : String → List SoftwareItem → ℕ → Manager → Scan
store_scan hash items now m =
    if ltb (text_length hash) 12
    then panicked
    else returned true
        (record m { last_items = items; last_hash = hash; last_scan_time = some now })

-- ForceScan
unfoldable pub force_scan : (List SoftwareItem → String) → List SoftwareItem → ℕ → Manager → Scan
unfolding compute_hash
force_scan digest items now m = store_scan (compute_hash digest items) items now m

abbrev pub nanoseconds_per_minute : ℕ
nanoseconds_per_minute = 60 * 10 ^ 9

-- time.Duration(minutes) * time.Minute as a word of 64 bits
abbrev pub duration_word : ℤ → ℕ
duration_word (pos n) = (n * nanoseconds_per_minute) % 2 ^ 64
duration_word (negsuc n) = (2 ^ 64 - (suc n * nanoseconds_per_minute) % 2 ^ 64) % 2 ^ 64

-- elapsed >= interval, where a word from 2 ^ 63 on is a negative duration
abbrev pub reaches : ℕ → ℕ → Bool
reaches elapsed word = if ltb word (2 ^ 63) then leb word elapsed else true

-- time.Since, which ends at the greatest duration
abbrev pub since : Option ℕ → ℕ → ℕ
since none now = 2 ^ 63 - 1
since (some last) now = now - last

-- ScanIfNeeded
unfoldable pub scan_if_needed :
    (List SoftwareItem → String) → List SoftwareItem → ℕ → Manager → Scan
unfolding force_scan
scan_if_needed digest items now m =
    if reaches (since m.last_scan_time now) (duration_word m.scan_interval_min)
    then force_scan digest items now m
    else returned false m

-- GetSubmitPayload
unfoldable pub get_submit_payload : Manager → SubmitRequest
get_submit_payload m = record {
  inventory_hash = m.last_hash;
  software_count = length m.last_items;
  items = m.last_items;
}

abbrev pub unless_empty : SubmitRequest → Option SubmitRequest
unless_empty payload = if nat_beq (length payload.items) 0 then none else some payload

-- SyncIfRequested: the request that submitFn is called with
unfoldable pub sync_if_requested : Bool → Manager → Option SubmitRequest
unfolding get_submit_payload
sync_if_requested required m = if required then unless_empty (get_submit_payload m) else none
