-- ===== src/Prelude/Words.antt =====
-- `u64` arithmetic that saturates, and the two bounds that the crates name.
use Prim.Native.Nat.{ℕ, ◌+◌, ◌*◌, ◌^◌, min}

abbrev pub u64_max : ℕ
u64_max = 18_446_744_073_709_551_615

abbrev pub u32_max : ℕ
u32_max = 4_294_967_295

abbrev pub i64_max : ℕ
i64_max = 9_223_372_036_854_775_807

abbrev pub saturating_add : ℕ → ℕ → ℕ
saturating_add a b = min (a + b) u64_max

abbrev pub saturating_mul : ℕ → ℕ → ℕ
saturating_mul a b = min (a * b) u64_max

abbrev pub saturating_pow : ℕ → ℕ → ℕ
saturating_pow a b = min (a ^ b) u64_max
