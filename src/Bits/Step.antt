-- ===== src/Bits/Step.antt =====
-- `bit_xor` by its lowest digit.
use Prim.Native.Nat.{digits, differ, bit_xor-bitwise}
use imachine_hb_f.Prelude.{ℕ, zero, suc, ◌+◌, ◌*◌, ◌/◌, ◌%◌, ◌≤◌, ◌<◌, bit_xor, ◌≡◌, refl, arith}

abbrev xor_digits : ℕ → ℕ → ℕ → ℕ
xor_digits n a b = digits (λ b. b) differ n a b

-- The count of digits to go does not matter once it covers the first number.
xor_digits-eq : (n m a b : ℕ) → a ≤ n → a ≤ m → xor_digits n a b ≡ xor_digits m a b
xor_digits-eq zero zero a b p q = refl
xor_digits-eq zero (suc m) zero b p q = refl
xor_digits-eq zero (suc m) (suc a) b p q = absurd (omega arith)
xor_digits-eq (suc n) zero zero b p q = refl
xor_digits-eq (suc n) zero (suc a) b p q = absurd (omega arith)
xor_digits-eq (suc n) (suc m) zero b p q = refl
xor_digits-eq (suc n) (suc m) (suc a) b p q =
    omega (arith, xor_digits-eq n m (suc a / 2) (b / 2) (omega arith) (omega arith))

differ_bits : (x y : ℕ) → x < 2 → y < 2 → differ x y ≡ (x + y) % 2
differ_bits zero y p q = omega arith
differ_bits (suc zero) zero p q = refl
differ_bits (suc zero) (suc zero) p q = refl
differ_bits (suc zero) (suc (suc y)) p q = absurd (omega arith)
differ_bits (suc (suc x)) y p q = absurd (omega arith)

pub bit_xor_step : (a b : ℕ) → bit_xor a b ≡ bit_xor (a / 2) (b / 2) * 2 + (a % 2 + b % 2) % 2
bit_xor_step zero b = omega (arith, bit_xor-bitwise zero b, bit_xor-bitwise zero (b / 2))
bit_xor_step (suc a) b = omega (
  arith,
  bit_xor-bitwise (suc a) b,
  bit_xor-bitwise (suc a / 2) (b / 2),
  xor_digits-eq a (suc a / 2) (suc a / 2) (b / 2) (omega arith) (omega arith),
  differ_bits (suc a % 2) (b % 2) (omega arith) (omega arith),
)
