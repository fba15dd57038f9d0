-- ===== src/Base/Masks.antt =====
-- The masks of the alignments of C: `a & (d - 1)` is the rest of `a` by `d`.
use Prim.Native.Nat.{bit_and, digits, bit_and-bitwise}
use mathlib.Core.Path.{◌≡◌, refl}
use native.Mathlib.Omega.{arith}
use Prim.Native.Nat.{ℕ, zero, suc, ◌-◌, ◌/◌, ◌%◌, ◌≤◌, min}

-- the loop behind `bit_and`, over `n` digits of `a`
abbrev masked : ℕ → ℕ → ℕ → ℕ
masked n a mask = digits (λ b. zero) min n a mask

masked_0 : (n a : ℕ) → masked n a 0 ≡ 0
masked_0 zero a = refl
masked_0 (suc n) zero = refl
masked_0 (suc n) (suc a) = omega (arith, masked_0 n (suc a / 2))

masked_1 : (n a : ℕ) → a ≤ n → masked n a 1 ≡ a % 2
masked_1 zero a le = omega arith
masked_1 (suc n) zero le = refl
masked_1 (suc n) (suc a) le = omega (arith, masked_0 n (suc a / 2))

masked_3 : (n a : ℕ) → a ≤ n → masked n a 3 ≡ a % 4
masked_3 zero a le = omega arith
masked_3 (suc n) zero le = refl
masked_3 (suc n) (suc a) le = omega (arith, masked_1 n (suc a / 2) (omega arith))

masked_7 : (n a : ℕ) → a ≤ n → masked n a 7 ≡ a % 8
masked_7 zero a le = omega arith
masked_7 (suc n) zero le = refl
masked_7 (suc n) (suc a) le = omega (arith, masked_3 n (suc a / 2) (omega arith))

masked_15 : (n a : ℕ) → a ≤ n → masked n a 15 ≡ a % 16
masked_15 zero a le = omega arith
masked_15 (suc n) zero le = refl
masked_15 (suc n) (suc a) le = omega (arith, masked_7 n (suc a / 2) (omega arith))

-- The alignments of the types of C.
pub data IsAlignment : ℕ → Type 0 where
  of_1 : {d : ℕ} → d ≡ 1 → IsAlignment d
  of_2 : {d : ℕ} → d ≡ 2 → IsAlignment d
  of_4 : {d : ℕ} → d ≡ 4 → IsAlignment d
  of_8 : {d : ℕ} → d ≡ 8 → IsAlignment d
  of_16 : {d : ℕ} → d ≡ 16 → IsAlignment d

pub bit_and-mod : (a d : ℕ) → IsAlignment d → bit_and a (d - 1) ≡ a % d
bit_and-mod a d (of_1 e) = rw e (omega (arith, bit_and-bitwise a 0, masked_0 a a))
bit_and-mod a d (of_2 e) = rw e (omega (arith, bit_and-bitwise a 1, masked_1 a a (omega arith)))
bit_and-mod a d (of_4 e) = rw e (omega (arith, bit_and-bitwise a 3, masked_3 a a (omega arith)))
bit_and-mod a d (of_8 e) = rw e (omega (arith, bit_and-bitwise a 7, masked_7 a a (omega arith)))
bit_and-mod a d (of_16 e) = rw e (omega (arith, bit_and-bitwise a 15, masked_15 a a (omega arith)))
