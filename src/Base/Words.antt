-- ===== src/Base/Words.antt =====
-- Machine words of the AVR as native numbers: a byte has 8 bits, an int and a uint16_t have 16. A
-- signed value is kept as its bit pattern.
use Prim.Native.Nat.{ℕ, ◌+◌, ◌-◌, ◌*◌, ◌/◌, ◌%◌, ◌<◌}
use mathlib.Core.Path.{◌≡◌}
use native.Mathlib.Omega.{arith}

abbrev pub u8 : ℕ → ℕ
u8 n = n % 256

abbrev pub u16 : ℕ → ℕ
u16 n = n % 65536

-- x >> 8, as a byte
abbrev pub high : ℕ → ℕ
high n = n / 256 % 256

-- h << 8 | l of two bytes
abbrev pub word : ℕ → ℕ → ℕ
word h l = u16 (h * 256 + l)

-- a - b modulo 2^16
abbrev pub sub16 : ℕ → ℕ → ℕ
sub16 a b = (a + 65536 - b % 65536) % 65536

abbrev pub IsByte : ℕ → Type 0
IsByte b = b < 256

abbrev pub IsWord : ℕ → Type 0
IsWord w = w < 65536

pub word-high : (w : ℕ) → IsWord w → word (high w) (u8 w) ≡ w
word-high w h = omega arith
