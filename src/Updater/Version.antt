-- ===== src/Updater/Version.antt =====
-- The comparison of versions in internal/updater/updater.go, on code points.
use Prim.Native.Char.{code}
use appcenter_agent.Common.{
  ℕ, zero, suc, ◌+◌, ◌-◌, ◌*◌, String, Bool, false, not, ◌&&◌, ◌||◌, Option, none, some, List, [],
  ◌∷◌, ltb, leb, if◌then◌else◌, ◌==◌, nat_eq, int_eq, string_eq, is_blank,
}
use appcenter_agent.Common.Text.{codes, append}

-- a version by its three numbers
pub record Semver : Type 0 where
  pub major : ℕ
  pub minor : ℕ
  pub patch : ℕ

abbrev pub is_digit : ℕ → Bool
is_digit c = leb 48 c && leb c 57

-- the digits at the start, and what follows them
abbrev pub digits : List ℕ → List ℕ
digits [] = []
digits (c ∷ s) = let rest = digits s in if is_digit c then c ∷ rest else []

abbrev pub after_digits : List ℕ → List ℕ
after_digits [] = []
after_digits (c ∷ s) = let rest = after_digits s in if is_digit c then rest else c ∷ s

-- from the first digit on
abbrev pub from_digit : List ℕ → List ℕ
from_digit [] = []
from_digit (c ∷ s) = let rest = from_digit s in if is_digit c then c ∷ s else rest

abbrev pub starts_with_digit : List ℕ → Bool
starts_with_digit [] = false
starts_with_digit (c ∷ s) = is_digit c

-- up to `n` further numbers, each behind a dot
abbrev pub more_parts : ℕ → List ℕ → List (List ℕ)
more_parts zero s = []
more_parts (suc n) [] = []
more_parts (suc n) (c ∷ s) =
    let rest = more_parts n (after_digits s) in
    if c == 46 && starts_with_digit s then digits s ∷ rest else []

-- strings.Split of the match of semverLikeRe at the dots
abbrev pub semver_parts : List ℕ → List (List ℕ)
semver_parts v =
    if starts_with_digit (from_digit v)
    then digits (from_digit v) ∷ more_parts 2 (after_digits (from_digit v))
    else []

-- strconv.Atoi of digits: an int has 64 bits
abbrev pub value : ℕ → List ℕ → ℕ
value n [] = n
value n (c ∷ s) = value (n * 10 + (c - 48)) s

abbrev pub atoi : List ℕ → Option ℕ
atoi s = if ltb (value 0 s) 9223372036854775808 then some (value 0 s) else none

abbrev pub semver_of : Option ℕ → Option ℕ → Option ℕ → Option Semver
semver_of (some a) (some b) (some c) = some (record { major = a; minor = b; patch = c })
semver_of (some a) (some b) none = none
semver_of (some a) none c = none
semver_of none b c = none

abbrev pub out : List (List ℕ) → Option Semver
out [] = none
out (a ∷ []) = semver_of (atoi a) (some 0) (some 0)
out (a ∷ b ∷ []) = semver_of (atoi a) (atoi b) (some 0)
out (a ∷ b ∷ c ∷ rest) = semver_of (atoi a) (atoi b) (atoi c)

unfoldable pub extract_semver3 : List ℕ → Option Semver
extract_semver3 v = out (semver_parts v)

abbrev pub semver_gt : Semver → Semver → Bool
semver_gt t c =
    if not (t.major == c.major)
    then ltb c.major t.major
    else if not (t.minor == c.minor)
    then ltb c.minor t.minor
    else ltb c.patch t.patch

abbrev pub newer_of : Option Semver → Option Semver → Bool → Bool
newer_of (some t) (some c) otherwise = semver_gt t c
newer_of (some t) none otherwise = otherwise
newer_of none c otherwise = otherwise

unfoldable pub is_newer_version : String → String → Bool
is_newer_version target current =
    newer_of (extract_semver3 (codes target)) (extract_semver3 (codes current))
      (not (is_blank target) && not (target == current))

-- sanitizeVersion
abbrev pub sanitize_char : ℕ → Bool
sanitize_char c = c == 47 || c == 92 || c == 58 || c == 32

unfoldable pub sanitize_version : String → String
sanitize_version String.[] = String.[]
sanitize_version (String.◌∷◌ c s) =
    append (if sanitize_char (code c) then "_" else String.◌∷◌ c String.[]) (sanitize_version s)
