-- ===== src/Base/Words.antt =====
-- Big-endian words: `u16` and `u32` as bytes, and the two's complement pattern of an `i32`.
use Prim.Native.Nat.{ℕ, ◌+◌, ◌-◌, ◌*◌, ◌/◌, ◌%◌, ◌<◌}
use mathlib.Core.Path.{◌≡◌}
use mathlib.Core.List.{List, [], ◌∷◌}
use native.Mathlib.Omega.{arith}
use pty.Base.Tests.{ltb, if◌then◌else◌}

-- `to_be_bytes` of a `u16`; a larger number wraps, as `as u16` does.
unfoldable pub u16_to_be : ℕ → List ℕ
u16_to_be n = (n / 256 % 256) ∷ (n % 256) ∷ []

unfoldable pub u16_from_be : ℕ → ℕ → ℕ
u16_from_be b1 b0 = b1 * 256 + b0

-- `to_be_bytes` of a `u32`; a larger number wraps, as `as u32` does.
unfoldable pub u32_to_be : ℕ → List ℕ
u32_to_be n = (n / 16777216 % 256) ∷ (n / 65536 % 256) ∷ (n / 256 % 256) ∷ (n % 256) ∷ []

unfoldable pub u32_from_be : ℕ → ℕ → ℕ → ℕ → ℕ
u32_from_be b3 b2 b1 b0 = b3 * 16777216 + b2 * 65536 + b1 * 256 + b0

-- `negsuc n` is -(n + 1).
pub data ℤ : Type 0 where
  pos : ℕ → ℤ
  negsuc : ℕ → ℤ

-- The bit pattern of an `i32`, and the integer that a pattern stands for.
unfoldable pub i32_bits : ℤ → ℕ
i32_bits (pos n) = n % 4294967296
i32_bits (negsuc n) = 4294967295 - n % 4294967296

unfoldable pub i32_of_bits : ℕ → ℤ
i32_of_bits b = if ltb b 2147483648 then pos b else negsuc (4294967295 - b)

abbrev pub InI32 : ℤ → Type 0
InI32 (pos n) = n < 2147483648
InI32 (negsuc n) = n < 2147483648

pub u16_from-to : (n : ℕ) → n < 65536 → u16_from_be (n / 256 % 256) (n % 256) ≡ n
unfolding u16_from_be
u16_from-to n h = omega arith

pub u32_from-to :
    (n : ℕ)
    → n < 4294967296
    → u32_from_be (n / 16777216 % 256) (n / 65536 % 256) (n / 256 % 256) (n % 256) ≡ n
unfolding u32_from_be
u32_from-to n h = omega arith

pub i32_of_bits-i32_bits : (z : ℤ) → InI32 z → i32_of_bits (i32_bits z) ≡ z
unfolding i32_of_bits i32_bits
i32_of_bits-i32_bits (pos n) h = ground arith
i32_of_bits-i32_bits (negsuc n) h = ground arith

pub i32_bits_bound : (z : ℤ) → i32_bits z < 4294967296
unfolding i32_bits
i32_bits_bound (pos n) = omega arith
i32_bits_bound (negsuc n) = omega arith
