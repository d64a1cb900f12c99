-- ===== src/Common/Text.antt =====
-- What the program uses of Go's `strings`: trimming, prefixes, and comparison in lower case. A
-- lowered text is kept as its code points. Of the letters outside ASCII only those two are lowered
-- that become ASCII letters, since every lowered text is compared with an ASCII text.
use Prim.Native.Nat.{ℕ, ◌+◌}
use Prim.Native.Char.{Char, code}
use Prim.Native.String.{String}
use mathlib.Core.Bool.{Bool, true, false, ◌&&◌, ◌||◌}
use mathlib.Core.List.{List, [], ◌∷◌}
use mathlib.Core.Path.{◌≡◌, refl}
use native.Mathlib.Omega.{arith}
use appcenter_agent.Common.Tests.{leb, nat_beq, if◌then◌else◌}

abbrev pub codes : String → List ℕ
codes String.[] = []
codes (String.◌∷◌ c s) = code c ∷ codes s

-- unicode.IsSpace
pub is_space : ℕ → Bool
is_space c =
    (leb 9 c && leb c 13)
    || nat_beq c 32
    || nat_beq c 0x85
    || nat_beq c 0xa0
    || nat_beq c 0x1680
    || (leb 0x2000 c && leb c 0x200a)
    || nat_beq c 0x2028
    || nat_beq c 0x2029
    || nat_beq c 0x202f
    || nat_beq c 0x205f
    || nat_beq c 0x3000

-- strings.TrimLeftFunc and TrimRightFunc over code points that satisfy a test
unfoldable pub trim_left : (ℕ → Bool) → String → String
trim_left p String.[] = String.[]
trim_left p (String.◌∷◌ c s) =
    let rest = trim_left p s in if p (code c) then rest else String.◌∷◌ c s

abbrev cons_kept : (ℕ → Bool) → Char → String → String
cons_kept p c String.[] = if p (code c) then String.[] else String.◌∷◌ c String.[]
cons_kept p c (String.◌∷◌ d s) = String.◌∷◌ c (String.◌∷◌ d s)

unfoldable pub trim_right : (ℕ → Bool) → String → String
trim_right p String.[] = String.[]
trim_right p (String.◌∷◌ c s) = cons_kept p c (trim_right p s)

-- strings.TrimSpace
unfoldable pub trim_space : String → String
unfolding trim_left trim_right is_space
trim_space s = trim_right is_space (trim_left is_space s)

-- strings.TrimRight(s, "/")
unfoldable pub trim_slashes : String → String
unfolding trim_right
trim_slashes s = trim_right (λ c. nat_beq c b'/') s

unfoldable pub lower_code : ℕ → ℕ
lower_code c =
    if leb 65 c && leb c 90
    then c + 32
    else if nat_beq c 0x130
    then 105
    else if nat_beq c 0x212a
    then 107
    else c

-- strings.ToLower
unfoldable pub lowered : String → List ℕ
unfolding lower_code
lowered String.[] = []
lowered (String.◌∷◌ c s) = lower_code (code c) ∷ lowered s

unfoldable pub same_codes : List ℕ → List ℕ → Bool
same_codes [] [] = true
same_codes [] (d ∷ t) = false
same_codes (c ∷ s) [] = false
same_codes (c ∷ s) (d ∷ t) = nat_beq c d && same_codes s t

pub same_codes_refl : (s : List ℕ) → same_codes s s ≡ true
unfolding same_codes
same_codes_refl [] = refl
same_codes_refl (c ∷ s) = ground (arith, same_codes_refl s)

abbrev pub append : String → String → String
append String.[] t = t
append (String.◌∷◌ c s) t = String.◌∷◌ c (append s t)

-- strings.HasPrefix(s, "/")
abbrev pub starts_with_slash : String → Bool
starts_with_slash String.[] = false
starts_with_slash (String.◌∷◌ c s) = nat_beq (code c) b'/'

-- an address of the server's, or one that stands for itself
abbrev pub resolve_url : String → String → String
unfolding trim_slashes
resolve_url server url = if starts_with_slash url then append (trim_slashes server) url else url

-- filepath.Join of a directory that is written clean and a plain file name
abbrev pub join : String → String → String
join String.[] name = name
join (String.◌∷◌ c dir) name = append (String.◌∷◌ c dir) (append "\\" name)
