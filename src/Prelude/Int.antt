-- ===== src/Prelude/Int.antt =====
-- Go's signed integers as values that the program stores and compares. (The library's ℤ stands on
-- the unary numbers.)
use Prim.Native.Nat.{ℕ, suc}
use mathlib.Core.Path.{◌≡◌}
use mathlib.Core.Logic.{◌↔◌}
use mathlib.Core.Bool.{Bool, true, false}
use native.Mathlib.Omega.{arith}
use tax_bro.Prelude.Tests.{nat_eq, Eq}

-- `negsuc n` is -(n + 1).
pub data ℤ : Type 0 where
  pos : ℕ → ℤ
  negsuc : ℕ → ℤ

abbrev pub int_eq : ℤ → ℤ → Bool
int_eq (pos a) (pos b) = nat_eq a b
int_eq (negsuc a) (negsuc b) = nat_eq a b
int_eq _ _ = false

pub int_eq_iff : (a b : ℤ) → (int_eq a b ≡ true) ↔ (a ≡ b)
int_eq_iff (pos a) (pos b) = ground arith
int_eq_iff (negsuc a) (negsuc b) = ground arith
int_eq_iff a b = ground arith

instance abbrev pub eq_int : Eq ℤ
eq_int = record { equal = int_eq; equal_iff = int_eq_iff }

-- `math.Abs`
abbrev pub abs : ℤ → ℕ
abs (pos n) = n
abs (negsuc n) = suc n
