-- ===== src/Json.antt =====
-- A decoded JSON value, as Go's `any` holds it. A number is kept by its integer part, which is all
-- that the program takes of a float64.
use appcenter_agent.Common.{String, Bool, ℤ, Option, some, string_eq}
use appcenter_agent.Common.Dict.{Dict, lookup}

pub data Json : Type 0 where
  null : Json
  flag : Bool → Json
  number : ℤ → Json
  text : String → Json
  other : Json

abbrev pub JsonObject : Type 0
JsonObject = Dict String Json

abbrev pub text_or_empty : Option Json → String
text_or_empty (some (text s)) = s
text_or_empty _ = ""

-- v, _ := m[key].(string)
unfoldable pub get_text : JsonObject → String → String
get_text m key = text_or_empty (lookup key m)
