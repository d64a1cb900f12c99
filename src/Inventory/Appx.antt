-- ===== src/Inventory/Appx.antt =====
-- The packages that internal/inventory/scanner_windows_appx.go lists: their names, and the cache of
-- the last list that could be read. What PowerShell prints, decoded, is an input; so are the clock,
-- in nanoseconds, and whether the cache file could be written.
use appcenter_agent.Common.{
  ℕ, zero, suc, ◌+◌, String, Bool, true, false, not, ◌&&◌, ◌||◌, Option, none, some, List, [], ◌∷◌,
  map, leb, if◌then◌else◌, nat_beq, pos, nat_eq, int_eq, string_eq, is_blank, length,
}
use appcenter_agent.Common.Text.{codes, trim_space, same_codes, append}
use Prim.Native.Char.{Char, code}
use appcenter_agent.Inventory.{SoftwareItem}

-- appxPkg
pub record AppxPkg : Type 0 where
  pub name : String
  pub version : String
  pub publisher : String
  pub architecture : String

abbrev pub ascii_lower : ℕ → ℕ
ascii_lower c = if leb 65 c && leb c 90 then c + 32 else c

abbrev pub is_digit : ℕ → Bool
is_digit c = leb 48 c && leb c 57

-- [0-9a-f] in either case
unfoldable pub is_hex : ℕ → Bool
is_hex c = is_digit c || (leb 97 (ascii_lower c) && leb (ascii_lower c) 102)

unfoldable pub all_hex : List ℕ → Bool
unfolding is_hex
all_hex [] = true
all_hex (c ∷ s) = is_hex c && all_hex s

-- hexLikeRe
unfoldable pub hex_like : List ℕ → Bool
unfolding all_hex
hex_like s = leb 12 (length s) && leb (length s) 40 && all_hex s

-- what follows the given number of hexadecimal digits
unfoldable pub behind_hex : ℕ → List ℕ → Option (List ℕ)
unfolding is_hex
behind_hex zero s = some s
behind_hex (suc n) [] = none
behind_hex (suc n) (c ∷ s) = let rest = behind_hex n s in if is_hex c then rest else none

abbrev pub behind_dash : Option (List ℕ) → Option (List ℕ)
behind_dash none = none
behind_dash (some []) = none
behind_dash (some (c ∷ s)) = if nat_beq c b'-' then some s else none

unfoldable pub hex_group : ℕ → Option (List ℕ) → Option (List ℕ)
unfolding behind_hex
hex_group n none = none
hex_group n (some s) = behind_hex n s

abbrev pub is_end : Option (List ℕ) → Bool
is_end (some []) = true
is_end _ = false

abbrev pub four_hex : Option (List ℕ) → Option (List ℕ)
four_hex s = behind_dash (hex_group 4 s)

-- guidLikeRe
unfoldable pub guid_like : List ℕ → Bool
unfolding hex_group
guid_like s =
    is_end (hex_group 12 (four_hex (four_hex (four_hex (behind_dash (hex_group 8 (some s)))))))

abbrev pub with_first : Char → List String → List String
with_first c [] = String.◌∷◌ c String.[] ∷ []
with_first c (part ∷ parts) = String.◌∷◌ c part ∷ parts

-- strings.Split(s, ".")
unfoldable pub split_dots : String → List String
split_dots String.[] = String.[] ∷ []
split_dots (String.◌∷◌ c s) =
    let parts = split_dots s in
    if nat_beq (code c) b'.' then String.[] ∷ parts else with_first c parts

-- strings.Join(parts, ".")
unfoldable pub join_dots : List String → String
join_dots [] = ""
join_dots (part ∷ []) = part
join_dots (part ∷ next ∷ parts) = append part (append "." (join_dots (next ∷ parts)))

abbrev pub only_digits : String → Bool
only_digits String.[] = true
only_digits (String.◌∷◌ c s) = is_digit (code c) && only_digits s

-- isDigits
abbrev pub is_digits : String → Bool
is_digits s = not (is_blank s) && only_digits s

-- parts[tailStart:] and, last one first, parts[:tailStart], from the parts in reverse
abbrev pub numeric_tail : List String → List String → List String × List String
numeric_tail tail [] = (tail, [])
numeric_tail tail (part ∷ before) =
    let rest = numeric_tail (part ∷ tail) before in
    if is_digits part then rest else (tail, part ∷ before)

abbrev pub reverse_onto : List String → List String → List String
reverse_onto done [] = done
reverse_onto done (part ∷ parts) = reverse_onto (part ∷ done) parts

-- strings.EqualFold with an ASCII text that has neither `k` nor `s`
unfoldable pub equal_fold : String → String → Bool
unfolding same_codes
equal_fold s t = same_codes (map ascii_lower (codes s)) (map ascii_lower (codes t))

abbrev pub is_generic : String → Bool
is_generic base = equal_fold base "main" || equal_fold base "manager"

-- the segment in front of the numeric suffix, or the one before it if that says too little
unfoldable pub base_of : List String → String
unfolding trim_space
base_of [] = ""
base_of (last ∷ []) = trim_space last
base_of (last ∷ previous ∷ _) =
    if is_generic (trim_space last) then trim_space previous else trim_space last

unfoldable pub last_segment : String → List String → String
unfolding trim_space
last_segment pkg_name [] = pkg_name
last_segment pkg_name (last ∷ _) = if is_blank (trim_space last) then pkg_name else trim_space last

abbrev pub shortened : String → List String × List String → String
shortened pkg_name ([], segments) = last_segment pkg_name segments
shortened pkg_name (part ∷ parts, segments) =
    let base = base_of segments in
    let suffix = join_dots (part ∷ parts) in
    if is_blank base || is_blank suffix then pkg_name else append base (append " " suffix)

-- shortenAppxName
unfoldable pub shorten_appx_name : String → String
unfolding trim_space split_dots
shorten_appx_name s =
    let pkg_name = trim_space s in
    if is_blank pkg_name
    then ""
    else shortened pkg_name (numeric_tail [] (reverse_onto [] (split_dots pkg_name)))

abbrev pub is_identifier : String → Bool
is_identifier s = guid_like (codes s) || hex_like (codes s)

-- the item that a package is listed as
unfoldable pub appx_item : AppxPkg → Option SoftwareItem
appx_item p =
    let raw_name = trim_space p.name in
    let display = shorten_appx_name raw_name in
    if is_blank raw_name
    then none
    else if is_identifier raw_name
    then none
    else if is_blank display || is_identifier display
    then none
    else some (record {
      name = display;
      version = trim_space p.version;
      publisher = trim_space p.publisher;
      install_date = "";
      estimated_size_kb = pos 0;
      architecture = trim_space p.architecture;
    })

abbrev pub cons_some {ℓ} : {A : Type ℓ} → Option A → List A → List A
cons_some none xs = xs
cons_some (some x) xs = x ∷ xs

unfoldable pub appx_items : List AppxPkg → List SoftwareItem
unfolding appx_item
appx_items [] = []
appx_items (p ∷ ps) = cons_some (appx_item p) (appx_items ps)
