-- ===== src/Prelude/Masks.antt =====
-- Masks of the lowest bits: `& 0xff` is the remainder of a division.
use Prim.Native.Nat.{ℕ, zero, suc, ◌+◌, ◌*◌, ◌/◌, ◌%◌, ◌≤◌, min, digits, bit_and, bit_and-bitwise}
use mathlib.Core.Path.{◌≡◌, refl, ◌∙◌, ap₂}
use native.Mathlib.Omega.{arith}

abbrev ones : ℕ → ℕ
ones zero = 0
ones (suc k) = ones k * 2 + 1

abbrev lowest : ℕ → ℕ → ℕ
lowest zero a = 0
lowest (suc k) a = lowest k (a / 2) * 2 + a % 2

no_mask : (n a : ℕ) → digits (λ b. zero) min n a 0 ≡ 0
no_mask zero a = refl
no_mask (suc n) zero = refl
no_mask (suc n) (suc a) = omega (arith, no_mask n (suc a / 2))

lowest-zero : (k : ℕ) → lowest k 0 ≡ 0
lowest-zero zero = refl
lowest-zero (suc k) = omega (arith, lowest-zero k)

digits-lowest : (k n a : ℕ) → a ≤ n → digits (λ b. zero) min n a (ones k) ≡ lowest k a
digits-lowest zero n a h = no_mask n a
digits-lowest (suc k) zero zero h = omega (arith, lowest-zero k)
digits-lowest (suc k) zero (suc a) h = absurd (omega arith)
digits-lowest (suc k) (suc n) zero h = omega (arith, lowest-zero k)
digits-lowest (suc k) (suc n) (suc a) h =
    let half : (ones k * 2 + 1) / 2 ≡ ones k = omega arith in
    let ih = digits-lowest k n (suc a / 2) (omega arith) in
    let e : digits (λ b. zero) min n (suc a / 2) ((ones k * 2 + 1) / 2) ≡ lowest k (suc a / 2) =
      rw half ih in
    let m : min (suc a % 2) ((ones k * 2 + 1) % 2) ≡ suc a % 2 = omega arith in
    ap₂ (λ x y. x * 2 + y) e m

pub bit_and_byte : (a : ℕ) → bit_and a 0xff ≡ a % 256
bit_and_byte a = bit_and-bitwise a 0xff ∙ (digits-lowest 8 a a (omega arith) ∙ omega arith)
