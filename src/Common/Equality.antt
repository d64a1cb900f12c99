-- ===== src/Common/Equality.antt =====
-- Equality tests as an interface, with the instances that the program compares.
use Prim.Native.Nat.{ℕ}
use Prim.Native.String.{String}
use mathlib.Core.Path.{◌≡◌}
use mathlib.Core.Logic.{◌↔◌}
use mathlib.Core.Bool.{Bool, true, false}
use mathlib.Core.Option.{Option, none, some}
use text.Mathlib.Text.{◌==◌ as str_eq}
use text.Mathlib.TextEquality.{eq_iff}
use appcenter_agent.Common.Tests.{nat_beq, nat_beq_iff, if◌then◌else◌}
use appcenter_agent.Common.Int.{ℤ, int_beq, int_beq_iff}

-- what `a == b` computes on values of the type, and that it decides their equality
pub record HasEq {κ} (T : Type κ) : Type κ where
  pub test : T → T → Bool
  pub test_iff : (x y : T) → (test x y ≡ true) ↔ (x ≡ y)

instance abbrev pub int_eq : HasEq ℤ
int_eq = record { test = int_beq; test_iff = int_beq_iff }

instance abbrev pub nat_eq : HasEq ℕ
nat_eq = record { test = nat_beq; test_iff = nat_beq_iff }

-- the strings' own comparison
instance abbrev pub string_eq : HasEq String
string_eq = record { test_iff = eq_iff; test = str_eq }

infix 50 ◌==◌
abbrev pub ◌==◌ {κ} : {T : Type κ} ⦃h : HasEq T⦄ → T → T → Bool
◌==◌ ⦃h⦄ x y = h.test x y

-- s == "", by the text's shape
abbrev pub is_blank : String → Bool
is_blank String.[] = true
is_blank (String.◌∷◌ c s) = false

-- the zero value for a missing string
abbrev pub or_empty : Option String → String
or_empty none = ""
or_empty (some v) = v

abbrev pub first_non_blank : String → String → String
first_non_blank s default = if is_blank s then default else s
