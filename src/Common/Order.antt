-- ===== src/Common/Order.antt =====
-- The order of Go's strings as an order of their code points, which agrees with the order of the
-- bytes in UTF-8, and the strings as a set.
use Prim.Native.Nat.{ℕ}
use Prim.Native.String.{String}
use mathlib.Core.Path.{◌≡◌, refl}
use mathlib.Core.Logic.{inl, inr}
use mathlib.Core.HLevel.{hedberg}
use mathlib.Core.Bool.{Bool, true, false}
use mathlib.Core.List.{List, [], ◌∷◌}
use native.Mathlib.Omega.{arith}
use text.Mathlib.Text.{◌==◌ as str_eq}
use text.Mathlib.TextEquality.{eq_iff}
use appcenter_agent.Common.Tests.{if◌then◌else◌, Bool-cases, ltb}

unfoldable pub code_less : List ℕ → List ℕ → Bool
code_less [] [] = false
code_less [] (d ∷ t) = true
code_less (c ∷ s) [] = false
code_less (c ∷ s) (d ∷ t) =
    let rest = code_less s t in if ltb c d then true else if ltb d c then false else rest

pub code_less_asymm : (s t : List ℕ) → code_less s t ≡ true → code_less t s ≡ false
unfolding code_less
code_less_asymm [] [] h = refl
code_less_asymm [] (d ∷ t) h = refl
code_less_asymm (c ∷ s) [] h = cc
code_less_asymm (c ∷ s) (d ∷ t) h = ground (arith, code_less_asymm s t)

pub code_less_neg_trans :
    (r s t : List ℕ) → code_less s r ≡ false → code_less t s ≡ false → code_less t r ≡ false
unfolding code_less
code_less_neg_trans [] [] [] h k = refl
code_less_neg_trans [] [] (e ∷ t) h k = refl
code_less_neg_trans [] (d ∷ s) [] h k = cc
code_less_neg_trans [] (d ∷ s) (e ∷ t) h k = refl
code_less_neg_trans (c ∷ r) [] t h k = cc
code_less_neg_trans (c ∷ r) (d ∷ s) [] h k = cc
code_less_neg_trans (c ∷ r) (d ∷ s) (e ∷ t) h k = ground (arith, code_less_neg_trans r s t)

pub code_less_antisymm : (s t : List ℕ) → code_less s t ≡ false → code_less t s ≡ false → s ≡ t
unfolding code_less
code_less_antisymm [] [] h k = refl
code_less_antisymm [] (d ∷ t) h k = cc
code_less_antisymm (c ∷ s) [] h k = cc
code_less_antisymm (c ∷ s) (d ∷ t) h k = ground (arith, code_less_antisymm s t)

string_discrete : Discrete String
string_discrete s t = elim (Bool-cases (str_eq s t)) [
  | inl e ↦ yes ((eq_iff s t).0 e)
  | inr e ↦ no (λ q. let hit = (eq_iff s t).1 q in cc)
]

pub string_set : IsSet String
string_set = hedberg string_discrete
