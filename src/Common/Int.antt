-- ===== src/Common/Int.antt =====
-- Go's signed integers as ℤ over the native numbers, with the tests of the source.
use Prim.Native.Nat.{ℕ}
use mathlib.Core.Path.{◌≡◌}
use mathlib.Core.Logic.{◌↔◌}
use mathlib.Core.Bool.{Bool, true, false}
use native.Mathlib.Omega.{arith}
use appcenter_agent.Common.Tests.{ltb, nat_beq}

-- `negsuc n` is -(n + 1).
pub data ℤ : Type 0 where
  pos : ℕ → ℤ
  negsuc : ℕ → ℤ

abbrev pub int_beq : ℤ → ℤ → Bool
int_beq (pos a) (pos b) = nat_beq a b
int_beq (pos a) (negsuc b) = false
int_beq (negsuc a) (pos b) = false
int_beq (negsuc a) (negsuc b) = nat_beq a b

-- a < b
abbrev pub int_ltb : ℤ → ℤ → Bool
int_ltb (pos a) (pos b) = ltb a b
int_ltb (pos a) (negsuc b) = false
int_ltb (negsuc a) (pos b) = true
int_ltb (negsuc a) (negsuc b) = ltb b a

-- 0 < a
abbrev pub is_positive : ℤ → Bool
is_positive (pos a) = ltb 0 a
is_positive (negsuc a) = false

pub int_beq_iff : (a b : ℤ) → (int_beq a b ≡ true) ↔ (a ≡ b)
int_beq_iff (pos a) (pos b) = ground arith
int_beq_iff (pos a) (negsuc b) = ground arith
int_beq_iff (negsuc a) (pos b) = ground arith
int_beq_iff (negsuc a) (negsuc b) = ground arith

pub int_ltb_irrefl : (a : ℤ) → int_ltb a a ≡ false
int_ltb_irrefl (pos a) = ground arith
int_ltb_irrefl (negsuc a) = ground arith

pub int_ltb_asymm : (a b : ℤ) → int_ltb a b ≡ true → int_ltb b a ≡ false
int_ltb_asymm (pos a) (pos b) h = ground arith
int_ltb_asymm (pos a) (negsuc b) h = ground arith
int_ltb_asymm (negsuc a) (pos b) h = ground arith
int_ltb_asymm (negsuc a) (negsuc b) h = ground arith

-- a ≤ b and b ≤ c give a ≤ c
pub int_ltb_neg_trans :
    (a b c : ℤ) → int_ltb b a ≡ false → int_ltb c b ≡ false → int_ltb c a ≡ false
int_ltb_neg_trans (pos a) (pos b) (pos c) h k = ground arith
int_ltb_neg_trans (pos a) (pos b) (negsuc c) h k = ground arith
int_ltb_neg_trans (pos a) (negsuc b) (pos c) h k = ground arith
int_ltb_neg_trans (pos a) (negsuc b) (negsuc c) h k = ground arith
int_ltb_neg_trans (negsuc a) (pos b) (pos c) h k = ground arith
int_ltb_neg_trans (negsuc a) (pos b) (negsuc c) h k = ground arith
int_ltb_neg_trans (negsuc a) (negsuc b) (pos c) h k = ground arith
int_ltb_neg_trans (negsuc a) (negsuc b) (negsuc c) h k = ground arith

pub int_ltb_antisymm : (a b : ℤ) → int_ltb a b ≡ false → int_ltb b a ≡ false → a ≡ b
int_ltb_antisymm (pos a) (pos b) h k = ground arith
int_ltb_antisymm (pos a) (negsuc b) h k = ground arith
int_ltb_antisymm (negsuc a) (pos b) h k = ground arith
int_ltb_antisymm (negsuc a) (negsuc b) h k = ground arith
