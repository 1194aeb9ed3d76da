-- ===== src/Prelude/Int.antt =====
-- Integers over the native numbers, as far as the source compares them.
use Prim.Native.Nat.{ℕ, suc, ◌+◌, ◌-◌}
use mathlib.Core.Path.{◌≡◌}
use mathlib.Core.Logic.{◌↔◌}
use mathlib.Core.Bool.{Bool, true, false}
use native.Mathlib.Omega.{arith}
use carbonpaper.Prelude.Tests.{nat_beq, ltb, if◌then◌else◌}
use carbonpaper.Prelude.Equality.{Eq}

-- `negsuc n` is -(n + 1).
pub data ℤ : Type 0 where
  pos : ℕ → ℤ
  negsuc : ℕ → ℤ

abbrev pub int_beq : ℤ → ℤ → Bool
int_beq (pos m) (pos n) = nat_beq m n
int_beq (negsuc m) (negsuc n) = nat_beq m n
int_beq _ _ = false

pub int_beq_iff : (a b : ℤ) → (int_beq a b ≡ true) ↔ (a ≡ b)
int_beq_iff (pos m) (pos n) = ground arith
int_beq_iff _ _ = ground arith

instance abbrev pub int_eq : Eq ℤ
int_eq = record { beq = int_beq; beq_iff = int_beq_iff }

-- An integer moved up by a count.
infixl 40 ◌+ℕ◌
abbrev pub ◌+ℕ◌ : ℤ → ℕ → ℤ
pos m +ℕ k = pos (m + k)
negsuc m +ℕ k = if ltb m k then pos (k - suc m) else negsuc (m - k)

pub +ℕ_assoc : (a : ℤ) (j k : ℕ) → a +ℕ j +ℕ k ≡ a +ℕ (j + k)
+ℕ_assoc (pos m) j k = ground arith
+ℕ_assoc (negsuc m) j k = ground arith

pub +ℕ_zero : (a : ℤ) → a +ℕ 0 ≡ a
+ℕ_zero (pos m) = ground arith
+ℕ_zero (negsuc m) = ground arith
