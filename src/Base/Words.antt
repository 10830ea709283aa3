-- ===== src/Base/Words.antt =====
-- Machine words as native numbers. `x >> k`, `x & (2^k - 1)`, `x | (2^k - 1)` and `x & ~(2^k - 1)`
-- are written by division and remainder, and wrap-around by `%`.
use Prim.Native.Nat.{ℕ, ◌+◌, ◌-◌, ◌*◌, ◌/◌, ◌%◌, ◌^◌}

abbrev pub u32_mod : ℕ
u32_mod = 2 ^ 32

-- x >> k
abbrev pub shr : ℕ → ℕ → ℕ
shr x k = x / 2 ^ k

-- x & (2^k - 1)
abbrev pub low_bits : ℕ → ℕ → ℕ
low_bits x k = x % 2 ^ k

-- x & ~(2^k - 1)
abbrev pub high_bits : ℕ → ℕ → ℕ
high_bits x k = x / 2 ^ k * 2 ^ k

-- x | (2^k - 1)
abbrev pub fill_bits : ℕ → ℕ → ℕ
fill_bits x k = x / 2 ^ k * 2 ^ k + (2 ^ k - 1)
