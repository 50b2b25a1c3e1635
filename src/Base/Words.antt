-- ===== src/Base/Words.antt =====
-- Machine words as numbers below a power of two, and their big-endian bytes.
use Prim.Native.Nat.{ℕ, ◌/◌, ◌%◌}
use mathlib.Core.List.{List, [], ◌∷◌}

abbrev pub u32_mod : ℕ
u32_mod = 4294967296

abbrev pub u64_mod : ℕ
u64_mod = 18446744073709551616

-- `u64::to_be_bytes` and `u32::to_be_bytes`.
unfoldable pub u64_to_be_bytes : ℕ → List ℕ
u64_to_be_bytes n =
    (n / 72057594037927936) % 256
    ∷ (n / 281474976710656) % 256
    ∷ (n / 1099511627776) % 256
    ∷ (n / 4294967296) % 256
    ∷ (n / 16777216) % 256
    ∷ (n / 65536) % 256
    ∷ (n / 256) % 256
    ∷ n % 256
    ∷ []

unfoldable pub u32_to_be_bytes : ℕ → List ℕ
u32_to_be_bytes n = (n / 16777216) % 256 ∷ (n / 65536) % 256 ∷ (n / 256) % 256 ∷ n % 256 ∷ []
