-- ===== src/Prelude/Words.antt =====
-- The casts and the arithmetic of the unsigned widths, and the bytes of a word in network order.
use Prim.Native.Nat.{ℕ, ◌+◌, ◌-◌, ◌*◌, ◌/◌, ◌%◌, ◌^◌, ◌<◌}
use mathlib.Core.Path.{◌≡◌}
use mathlib.Core.Bool.{Bool}
use mathlib.Core.List.{List, [], ◌∷◌}
use native.Mathlib.Omega.{arith}
use switch_lan_play_nx.Prelude.Tests.{◌==◌}

abbrev pub u8 : ℕ → ℕ
u8 n = n % 2 ^ 8

abbrev pub u16 : ℕ → ℕ
u16 n = n % 2 ^ 16

abbrev pub u32 : ℕ → ℕ
u32 n = n % 2 ^ 32

abbrev pub add32 : ℕ → ℕ → ℕ
add32 a b = (a + b) % 2 ^ 32

-- `a - b` in `u64`, which wraps.
abbrev pub sub64 : ℕ → ℕ → ℕ
sub64 a b = (a + 2 ^ 64 - b) % 2 ^ 64

-- `(x & (1 << k)) != 0`
abbrev pub has_bit : ℕ → ℕ → Bool
has_bit k x = (x / 2 ^ k) % 2 == 1

-- `(hi << 8) | lo` and its four-byte form, on bytes.
abbrev pub be16 : ℕ → ℕ → ℕ
be16 hi lo = hi * 2 ^ 8 + lo

abbrev pub be32 : ℕ → ℕ → ℕ → ℕ → ℕ
be32 a b c d = a * 2 ^ 24 + b * 2 ^ 16 + c * 2 ^ 8 + d

abbrev pub bytes16 : ℕ → List ℕ
bytes16 n = u8 (n / 2 ^ 8) ∷ u8 n ∷ []

abbrev pub bytes32 : ℕ → List ℕ
bytes32 n = u8 (n / 2 ^ 24) ∷ u8 (n / 2 ^ 16) ∷ u8 (n / 2 ^ 8) ∷ u8 n ∷ []

pub be16-bytes : (n : ℕ) → n < 2 ^ 16 → be16 (u8 (n / 2 ^ 8)) (u8 n) ≡ n
be16-bytes n h = omega arith

pub be32-bytes :
    (n : ℕ) → n < 2 ^ 32 → be32 (u8 (n / 2 ^ 24)) (u8 (n / 2 ^ 16)) (u8 (n / 2 ^ 8)) (u8 n) ≡ n
be32-bytes n h = omega arith
