-- ===== src/Files.antt =====
-- A file system as a map from paths to bytes, and VerifyFileHash of pkg/utils/hash.go. A file that
-- cannot be read counts as one that is not there. The SHA-256 of the standard library, in lower-case
-- hexadecimal digits, is the parameter `sha256`.
use appcenter_agent.Common.{
  ℕ, String, Bool, Option, none, some, List, [], ◌∷◌, if◌then◌else◌, ◌==◌, nat_eq, int_eq,
  string_eq,
}
use appcenter_agent.Common.Dict.{Dict, lookup}
use appcenter_agent.Common.Text.{codes, lowered, same_codes}

abbrev pub Bytes : Type 0
Bytes = List ℕ

abbrev pub Files : Type 0
Files = Dict String Bytes

-- what follows a prefix in `s`, or `whole` where there is none
abbrev strip : List ℕ → List ℕ → List ℕ → List ℕ
strip [] s whole = s
strip (p ∷ ps) [] whole = whole
strip (p ∷ ps) (c ∷ s) whole = if p == c then strip ps s whole else whole

-- strings.TrimPrefix
unfoldable pub trim_prefix : List ℕ → List ℕ → List ℕ
trim_prefix prefix s = strip prefix s s

unfoldable pub verdict : (Bytes → List ℕ) → String → Option Bytes → Option Bool
unfolding trim_prefix
verdict sha256 expected none = none
verdict sha256 expected (some content) =
    some (same_codes (sha256 content) (trim_prefix (codes "sha256:") (lowered expected)))

-- VerifyFileHash: `none` if the file cannot be read
unfoldable pub verify_file_hash : (Bytes → List ℕ) → Files → String → String → Option Bool
unfolding verdict
verify_file_hash sha256 files path expected = verdict sha256 expected (lookup path files)
