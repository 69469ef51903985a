-- ===== src/Prelude/Ints.antt =====
-- Signed integers, for process ids and for the results of system calls.
use Prim.Native.Nat.{ℕ, compare, Ordering}
use mathlib.Core.Path.{◌≡◌}
use mathlib.Core.Logic.{◌↔◌, ◌≢◌}
use mathlib.Core.Bool.{Bool, true, false}
use native.Mathlib.Omega.{arith}

-- `negsuc n` is -(n + 1).
pub data ℤ : Type 0 where
  pos : ℕ → ℤ
  negsuc : ℕ → ℤ

abbrev pub int_eq : ℤ → ℤ → Bool
int_eq (pos a) (pos b) = elim (compare a b) [ Ordering.eq ↦ true | _ ↦ false ]
int_eq (negsuc a) (negsuc b) = elim (compare a b) [ Ordering.eq ↦ true | _ ↦ false ]
int_eq _ _ = false

pub int_eq_iff : (a b : ℤ) → (int_eq a b ≡ true) ↔ (a ≡ b)
int_eq_iff a b = ground arith

pub int_eq_of_ne : (a b : ℤ) → a ≢ b → int_eq a b ≡ false
int_eq_of_ne a b h = ground (arith, int_eq_iff a b)

pub int_eq_of_eq : (a b : ℤ) → a ≡ b → int_eq a b ≡ true
int_eq_of_eq a b h = (int_eq_iff a b).1 h
