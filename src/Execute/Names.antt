-- ===== src/Execute/Names.antt =====
-- The names of files that cmd/service/core.go makes and takes apart: numbers in decimal digits, and
-- the extension.
use Prim.Native.Char.{code}
use appcenter_agent.Common.{
  ℕ, zero, suc, ◌/◌, ◌%◌, String, Bool, false, ◌||◌, List, [], ltb, if◌then◌else◌, ℤ, pos, negsuc,
  ◌==◌, nat_eq, int_eq, string_eq,
}
use appcenter_agent.Common.Text.{codes, lowered, same_codes, append}
use appcenter_agent.Downloader.{is_separator}

-- %d
abbrev digit_text : ℕ → String
digit_text n =
    if n == 0
    then "0"
    else if n == 1
    then "1"
    else if n == 2
    then "2"
    else if n == 3
    then "3"
    else if n == 4
    then "4"
    else if n == 5
    then "5"
    else if n == 6
    then "6"
    else if n == 7
    then "7"
    else if n == 8
    then "8"
    else "9"

-- with as many digits at most as the fuel; 64 bits need 19
abbrev decimal : ℕ → ℕ → String
decimal zero n = ""
decimal (suc fuel) n =
    let front = decimal fuel (n / 10) in
    if ltb n 10 then digit_text n else append front (digit_text (n % 10))

abbrev pub show_int : ℤ → String
show_int (pos n) = decimal 20 n
show_int (negsuc n) = append "-" (decimal 20 (suc n))

-- filepath.Ext in lower case
abbrev has_dot : String → Bool
has_dot String.[] = false
has_dot (String.◌∷◌ c s) = let rest = has_dot s in code c == 46 || rest

abbrev has_slash : String → Bool
has_slash String.[] = false
has_slash (String.◌∷◌ c s) = let rest = has_slash s in is_separator (code c) || rest

unfoldable pub ext : String → List ℕ
ext String.[] = []
ext (String.◌∷◌ c s) =
    let rest = ext s in
    if has_dot s || has_slash s then rest else if code c == 46 then lowered (String.◌∷◌ c s) else []

unfoldable pub has_ext : String → String → Bool
unfolding ext
has_ext path e = same_codes (ext path) (codes e)
