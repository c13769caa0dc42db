-- ===== src/Prelude/Bytes.antt =====
-- The bits of one byte: what `*reg |= _BV(k)`, `*reg &= ~_BV(k)` and `*reg & _BV(k)` do to it.
-- The laws are checked for every byte and every pair of bit numbers.
use Prim.Native.Nat.{ℕ, zero, suc, ◌-◌, ◌^◌, ◌<◌, bit_and, bit_or}
use mathlib.Core.Path.{◌≡◌, refl}
use mathlib.Core.Bool.{Bool, true, false, not, ◌&&◌}
use native.Mathlib.Omega.{arith}
use phatio.Prelude.Tests.{◌==◌, ltb, ltb→lt, if◌then◌else◌}

-- `reg |= _BV(k)`
unfoldable pub set_bit : ℕ → ℕ → ℕ
set_bit reg k = bit_or reg (2 ^ k)

-- `reg &= ~_BV(k)` on a byte
unfoldable pub clear_bit : ℕ → ℕ → ℕ
clear_bit reg k = bit_and reg (255 - 2 ^ k)

-- `(reg & _BV(k)) ? 1 : 0`
unfoldable pub test_bit : ℕ → ℕ → Bool
test_bit reg k = not (bit_and reg (2 ^ k) == 0)

abbrev pub all_below : ℕ → (ℕ → Bool) → Bool
all_below zero p = true
all_below (suc n) p = p n && all_below n p

pub all_below_sound : (n : ℕ) (p : ℕ → Bool) (x : ℕ) → all_below n p ≡ true → x < n → p x ≡ true
all_below_sound zero p x h lt = absurd (omega arith)
all_below_sound (suc n) p x h lt = ground (arith, all_below_sound n p x)

-- Two equal Booleans.
abbrev same : Bool → Bool → Bool
same true b = b
same false b = not b

same_sound : (a b : Bool) → same a b ≡ true → a ≡ b
same_sound true b h = ground arith
same_sound false b h = ground arith

abbrev bits_table : (ℕ → ℕ → ℕ → Bool) → Bool
bits_table p = all_below 8 (λ k. all_below 8 (λ j. all_below 256 (λ r. p r k j)))

bits_table_sound :
    (p : ℕ → ℕ → ℕ → Bool) (r k j : ℕ)
    → bits_table p ≡ true
    → r < 256
    → k < 8
    → j < 8
    → p r k j ≡ true
bits_table_sound p r k j h hr hk hj =
    all_below_sound 256 (λ r. p r k j) r
      (all_below_sound 8 (λ j. all_below 256 (λ r. p r k j)) j
        (all_below_sound 8 (λ k. all_below 8 (λ j. all_below 256 (λ r. p r k j))) k h hk) hj)
      hr

abbrev set_law : ℕ → ℕ → ℕ → Bool
set_law r k j = same (test_bit (set_bit r k) j) (if k == j then true else test_bit r j)

set_holds : bits_table set_law ≡ true
unfolding set_bit test_bit
set_holds = refl

pub test_bit-set_bit :
    (r k j : ℕ)
    → r < 256
    → k < 8
    → j < 8
    → test_bit (set_bit r k) j ≡ (if k == j then true else test_bit r j)
test_bit-set_bit r k j hr hk hj = same_sound _ _ (bits_table_sound set_law r k j set_holds hr hk hj)

abbrev clear_law : ℕ → ℕ → ℕ → Bool
clear_law r k j = same (test_bit (clear_bit r k) j) (if k == j then false else test_bit r j)

clear_holds : bits_table clear_law ≡ true
unfolding clear_bit test_bit
clear_holds = refl

pub test_bit-clear_bit :
    (r k j : ℕ)
    → r < 256
    → k < 8
    → j < 8
    → test_bit (clear_bit r k) j ≡ (if k == j then false else test_bit r j)
test_bit-clear_bit r k j hr hk hj =
    same_sound _ _ (bits_table_sound clear_law r k j clear_holds hr hk hj)

abbrev byte_law : ℕ → ℕ → ℕ → Bool
byte_law r k j = ltb (set_bit r k) 256 && ltb (clear_bit r k) 256

byte_holds : bits_table byte_law ≡ true
unfolding set_bit clear_bit
byte_holds = refl

and_true : (a b : Bool) → (a && b) ≡ true → (a ≡ true) × (b ≡ true)
and_true true b h = (refl, h)
and_true false b h = ground arith

pub bits_in_byte : (r k : ℕ) → r < 256 → k < 8 → (set_bit r k < 256) × (clear_bit r k < 256)
bits_in_byte r k hr hk =
    let h = and_true _ _ (bits_table_sound byte_law r k k byte_holds hr hk hk) in
    (ltb→lt _ _ h.0, ltb→lt _ _ h.1)
