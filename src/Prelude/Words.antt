-- ===== src/Prelude/Words.antt =====
-- Machine words as native numbers, big-endian bytes, and two's complement integers.
use Prim.Native.Nat.{ℕ, ◌-◌, ◌%◌, ◌^◌, ◌<◌, ◌≤◌}
use mathlib.Core.Path.{◌≡◌}
use mathlib.Core.Bool.{Bool, true, false}
use native.Mathlib.Omega.{arith}
use gathra_gateway.Prelude.Tests.{ltb, if◌then◌else◌}

abbrev pub IsByte : ℕ → Type 0
IsByte b = b < 2 ^ 8

pub lt-IsByte : {a n : ℕ} → a ≤ n → n ≤ 255 → IsByte a
lt-IsByte h k = omega arith

abbrev pub IsU16 : ℕ → Type 0
IsU16 v = v < 2 ^ 16

abbrev pub IsU32 : ℕ → Type 0
IsU32 v = v < 2 ^ 32

abbrev pub IsU64 : ℕ → Type 0
IsU64 v = v < 2 ^ 64

-- `negsuc n` is -(n + 1).
pub data ℤ : Type 0 where
  pos : ℕ → ℤ
  negsuc : ℕ → ℤ

-- The value of a signed integer fits `w + 1` bits.
abbrev pub IsSigned : ℕ → ℤ → Type 0
IsSigned w (pos n) = n < 2 ^ w
IsSigned w (negsuc n) = n < 2 ^ w

abbrev pub is_negative : ℤ → Bool
is_negative (pos n) = false
is_negative (negsuc n) = true

-- `static_cast<int64_t>`, `static_cast<int32_t>` and `static_cast<int16_t>` and back.
unfoldable pub signed64 : ℕ → ℤ
signed64 v = if ltb v (2 ^ 63) then pos v else negsuc (2 ^ 64 - 1 - v)

unfoldable pub unsigned64 : ℤ → ℕ
unsigned64 (pos n) = n % 2 ^ 64
unsigned64 (negsuc n) = 2 ^ 64 - 1 - n % 2 ^ 64

unfoldable pub signed32 : ℕ → ℤ
signed32 v = if ltb v (2 ^ 31) then pos v else negsuc (2 ^ 32 - 1 - v)

unfoldable pub unsigned32 : ℤ → ℕ
unsigned32 (pos n) = n % 2 ^ 32
unsigned32 (negsuc n) = 2 ^ 32 - 1 - n % 2 ^ 32

unfoldable pub signed16 : ℕ → ℤ
signed16 v = if ltb v (2 ^ 15) then pos v else negsuc (2 ^ 16 - 1 - v)

unfoldable pub unsigned16 : ℤ → ℕ
unsigned16 (pos n) = n % 2 ^ 16
unsigned16 (negsuc n) = 2 ^ 16 - 1 - n % 2 ^ 16

pub signed64-unsigned64 : (z : ℤ) → IsSigned 63 z → signed64 (unsigned64 z) ≡ z
unfolding signed64 unsigned64
signed64-unsigned64 (pos n) h = ground arith
signed64-unsigned64 (negsuc n) h = ground arith

pub signed32-unsigned32 : (z : ℤ) → IsSigned 31 z → signed32 (unsigned32 z) ≡ z
unfolding signed32 unsigned32
signed32-unsigned32 (pos n) h = ground arith
signed32-unsigned32 (negsuc n) h = ground arith

pub signed16-unsigned16 : (z : ℤ) → IsSigned 15 z → signed16 (unsigned16 z) ≡ z
unfolding signed16 unsigned16
signed16-unsigned16 (pos n) h = ground arith
signed16-unsigned16 (negsuc n) h = ground arith

pub unsigned64-IsU64 : (z : ℤ) → IsU64 (unsigned64 z)
unfolding unsigned64
unsigned64-IsU64 (pos n) = omega arith
unsigned64-IsU64 (negsuc n) = omega arith

pub unsigned32-IsU32 : (z : ℤ) → IsU32 (unsigned32 z)
unfolding unsigned32
unsigned32-IsU32 (pos n) = omega arith
unsigned32-IsU32 (negsuc n) = omega arith

pub unsigned16-IsU16 : (z : ℤ) → IsU16 (unsigned16 z)
unfolding unsigned16
unsigned16-IsU16 (pos n) = omega arith
unsigned16-IsU16 (negsuc n) = omega arith
