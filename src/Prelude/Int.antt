-- ===== src/Prelude/Int.antt =====
-- The signed integers that the source's `int` variables hold.
use Prim.Native.Nat.{ℕ}
use mathlib.Core.Bool.{Bool, false}
use imachine_hb_f.Prelude.Tests.{◌==◌}

-- `negsuc n` is -(n + 1).
pub data ℤ : Type 0 where
  pos : ℕ → ℤ
  negsuc : ℕ → ℤ

abbrev pub int_eq : ℤ → ℤ → Bool
int_eq (pos a) (pos b) = a == b
int_eq (negsuc a) (negsuc b) = a == b
int_eq _ _ = false
