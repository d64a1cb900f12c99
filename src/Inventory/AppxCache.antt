-- ===== src/Inventory/AppxCache.antt =====
-- The cache of internal/inventory/scanner_windows_appx.go and the query that fills it.
use appcenter_agent.Common.{
  ℕ, ◌-◌, ◌*◌, ◌/◌, ◌^◌, Bool, Option, none, some, List, [], ◌∷◌, ltb, if◌then◌else◌, nat_beq,
  nat_eq, int_eq, string_eq, length,
}
use appcenter_agent.Inventory.{SoftwareItem}
use appcenter_agent.Inventory.Appx.{AppxPkg, appx_items}

-- appxCacheFile; a stamp that is missing or does not parse is `none`
pub record AppxCacheFile : Type 0 where
  pub updated_at : Option ℕ
  pub items : List SoftwareItem

-- appxCache, appxCacheUpdatedAt, and the file, where `none` is one that cannot be read or decoded
pub record AppxCache : Type 0 where
  pub items : List SoftwareItem
  pub updated_at : ℕ
  pub file : Option AppxCacheFile

abbrev pub second : ℕ
second = 10 ^ 9

abbrev pub appx_cache_max_age : ℕ
appx_cache_max_age = 12 * 3600 * second

-- time.Since(t) > appxCacheMaxAge
abbrev pub is_stale : ℕ → ℕ → Bool
is_stale now t = ltb appx_cache_max_age (now - t)

abbrev pub reuse : ℕ → AppxCacheFile → AppxCache → Option (List SoftwareItem) × AppxCache
reuse t f c = (some f.items, record c { items = f.items; updated_at = t })

abbrev pub from_stamp :
    ℕ → AppxCacheFile → AppxCache → Option ℕ → Option (List SoftwareItem) × AppxCache
from_stamp now f c none = reuse now f c
from_stamp now f c (some t) = if is_stale now t then (none, c) else reuse t f c

abbrev pub from_file : ℕ → AppxCache → Option AppxCacheFile → Option (List SoftwareItem) × AppxCache
from_file now c none = (none, c)
from_file now c (some f) =
    if nat_beq (length f.items) 0 then (none, c) else from_stamp now f c f.updated_at

-- getAppxCache
unfoldable pub get_appx_cache : ℕ → AppxCache → Option (List SoftwareItem) × AppxCache
get_appx_cache now c =
    if nat_beq (length c.items) 0
    then from_file now c c.file
    else if is_stale now c.updated_at
    then (none, c)
    else (some c.items, c)

-- an instant in RFC 3339 without its fraction of a second
abbrev pub to_second : ℕ → ℕ
to_second t = t / second * second

-- setAppxCache
unfoldable pub set_appx_cache : Bool → ℕ → List SoftwareItem → AppxCache → AppxCache
set_appx_cache writable now items c = record {
  items = items;
  updated_at = now;
  file =
      if writable
      then some (record { updated_at = some (to_second now); items = items })
      else c.file;
}

abbrev pub or_nothing : Option (List SoftwareItem) → List SoftwareItem
or_nothing none = []
or_nothing (some items) = items

abbrev pub cached : ℕ → AppxCache → List SoftwareItem × AppxCache
cached now c = let reply = get_appx_cache now c in (or_nothing reply.0, reply.1)

-- the packages of PowerShell's output, which is an array or a single object; `none` if it fails,
-- prints nothing or prints something else
abbrev pub or_cached : Bool → ℕ → AppxCache → List SoftwareItem → List SoftwareItem × AppxCache
or_cached writable now c [] = cached now c
or_cached writable now c (item ∷ items) =
    (item ∷ items, set_appx_cache writable now (item ∷ items) c)

-- scanAppxPackagesAllUsers
unfoldable pub scan_appx_packages_all_users :
    Bool → ℕ → Option (List AppxPkg) → AppxCache → List SoftwareItem × AppxCache
scan_appx_packages_all_users writable now none c = cached now c
scan_appx_packages_all_users writable now (some many) c = or_cached writable now c (appx_items many)
