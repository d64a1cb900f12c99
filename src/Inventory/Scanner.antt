-- ===== src/Inventory/Scanner.antt =====
-- The scan of the registry in internal/inventory/scanner_windows.go. The registry is an input: what
-- golang.org/x/sys/windows/registry opens and reads, `none` where it returns an error.
use appcenter_agent.Common.{
  ℕ, ◌-◌, ◌%◌, ◌^◌, String, Bool, true, false, Option, none, some, List, [], ◌∷◌, ◌++◌, ltb,
  if◌then◌else◌, nat_beq, ℤ, pos, negsuc, ◌==◌, nat_eq, int_eq, string_eq, is_blank, or_empty,
}
use appcenter_agent.Common.Dict.{Dict, lookup, contains, insert}
use appcenter_agent.Common.Text.{codes, append}
use appcenter_agent.Service.{parse_int}
use appcenter_agent.Inventory.{SoftwareItem}
use appcenter_agent.Inventory.Appx.{ascii_lower}

-- a subkey that was opened: its values of the two kinds, which are different ones
pub record Key : Type 0 where
  pub strings : Dict String String
  pub integers : Dict String ℕ

-- GetStringValue without its error
abbrev pub get_string_value : Key → String → String
get_string_value k name = or_empty (lookup name k.strings)

-- int(v) of a uint64
unfoldable pub signed : ℕ → ℤ
signed v = let w = v % 2 ^ 64 in if ltb w (2 ^ 63) then pos w else negsuc (2 ^ 64 - 1 - w)

abbrev pub or_zero : Option ℤ → ℤ
or_zero none = pos 0
or_zero (some n) = n

unfoldable pub number_or_zero : Option ℕ → ℤ
unfolding signed
number_or_zero none = pos 0
number_or_zero (some v) = signed v

-- the size that a text gives, where there is one
abbrev pub text_size : Option String → ℤ
text_size none = pos 0
text_size (some s) = or_zero (parse_int (codes s))

-- the size in readSoftwareItem
unfoldable pub estimated_size : Key → ℤ
unfolding lookup
estimated_size k =
    let size = number_or_zero (lookup "EstimatedSize" k.integers) in
    if size == pos 0 then text_size (lookup "EstimatedSize" k.strings) else size

-- the inner loop of containsCI
unfoldable pub matches_at : List ℕ → List ℕ → Bool
matches_at s [] = true
matches_at [] (b ∷ substr) = false
matches_at (a ∷ s) (b ∷ substr) =
    let rest = matches_at s substr in
    if nat_beq (ascii_lower a) (ascii_lower b) then rest else false

-- containsCI
unfoldable pub contains_ci : List ℕ → List ℕ → Bool
unfolding matches_at
contains_ci [] substr = matches_at [] substr
contains_ci (a ∷ s) substr =
    let rest = contains_ci s substr in if matches_at (a ∷ s) substr then true else rest

unfoldable pub any_hint : String → List String → Bool
unfolding contains_ci
any_hint name [] = false
any_hint name (hint ∷ hints) =
    let rest = any_hint name hints in if contains_ci (codes name) (codes hint) then true else rest

-- inferArchitecture
unfoldable pub infer_architecture : Key → String
unfolding contains_ci
infer_architecture k =
    let name = get_string_value k "DisplayName" in
    if any_hint name ("(x64)" ∷ "64-bit" ∷ "x64" ∷ "amd64" ∷ [])
    then "x64"
    else if any_hint name ("(x86)" ∷ "32-bit" ∷ "x86" ∷ [])
    then "x86"
    else ""

-- readSoftwareItem
unfoldable pub read_software_item : Key → SoftwareItem
unfolding estimated_size infer_architecture
read_software_item k =
    let name = get_string_value k "DisplayName" in
    record {
      name = name;
      version = get_string_value k "DisplayVersion";
      publisher = get_string_value k "Publisher";
      install_date = get_string_value k "InstallDate";
      estimated_size_kb = estimated_size k;
      architecture = if is_blank name then "" else infer_architecture k;
    }

-- seen and items
pub record Gathered : Type 0 where
  pub seen : Dict String Bool
  pub items : List SoftwareItem

-- item.Name + "|" + item.Version
unfoldable pub dedup_key : SoftwareItem → String
dedup_key item = append item.name (append "|" item.version)

-- the rest of the loop's body, which both loops share
unfoldable pub add_item : SoftwareItem → Gathered → Gathered
unfolding dedup_key
add_item item g =
    if is_blank item.name
    then g
    else if contains (dedup_key item) g.seen
    then g
    else record { seen = insert (dedup_key item) true g.seen; items = g.items ++ (item ∷ []) }

unfoldable pub add_items : List SoftwareItem → Gathered → Gathered
unfolding add_item
add_items [] g = g
add_items (item ∷ items) g = add_items items (add_item item g)

abbrev pub is_system : Option ℕ → Bool
is_system none = false
is_system (some v) = nat_beq v 1

-- the item of a subkey that opens and is not a system component
abbrev pub listed : Option Key → List SoftwareItem
listed none = []
listed (some k) =
    if is_system (lookup "SystemComponent" k.integers) then [] else read_software_item k ∷ []

-- what a registry path lists, subkey by subkey
abbrev pub listed_under : List (Option Key) → List SoftwareItem
listed_under [] = []
listed_under (sub ∷ subs) = listed sub ++ listed_under subs

abbrev pub listed_in : Option (List (Option Key)) → List SoftwareItem
listed_in none = []
listed_in (some subs) = listed_under subs

unfoldable pub scan_paths : List (Option (List (Option Key))) → Gathered → Gathered
unfolding add_items
scan_paths [] g = g
scan_paths (path ∷ paths) g = scan_paths paths (add_items (listed_in path) g)

-- ScanInstalledSoftware: the registry paths, then the packages
unfoldable pub scan_installed_software :
    List (Option (List (Option Key))) → List SoftwareItem → List SoftwareItem
unfolding scan_paths
scan_installed_software paths packages =
    (add_items packages (scan_paths paths (record { seen = []; items = [] }))).items
