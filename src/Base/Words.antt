-- ===== src/Base/Words.antt =====
-- Rust's machine integers on plain numbers: the bounds and the saturating and checked operations.
use Prim.Native.Nat.{ℕ, ◌+◌, ◌-◌, min}
use mathlib.Core.Option.{Option, none, some}
use paqus_node.Base.Tests.{ltb, if◌then◌else◌}

abbrev pub u32_modulus : ℕ
u32_modulus = 4294967296

-- `usize` and `u64` are 64 bits wide.
abbrev pub u64_max : ℕ
u64_max = 18446744073709551615

-- `saturating_add` on `u64` and `usize`. `saturating_sub` is the subtraction of ℕ.
abbrev pub saturating_add : ℕ → ℕ → ℕ
saturating_add a b = min (a + b) u64_max

-- `saturating_add` on `u32`.
abbrev pub saturating_add_u32 : ℕ → ℕ → ℕ
saturating_add_u32 a b = min (a + b) (u32_modulus - 1)

-- `checked_add` on `u32`.
abbrev pub checked_add : ℕ → ℕ → Option ℕ
checked_add a b = if ltb (a + b) u32_modulus then some (a + b) else none
