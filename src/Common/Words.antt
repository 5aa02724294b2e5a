-- ===== src/Common/Words.antt =====
-- Unsigned machine words, as the standard library's checked and saturating methods treat them.
use Prim.Native.Nat.{ℕ, ◌+◌, min}
use mathlib.Core.Option.{Option, none, some}
use retrovert.Common.Tests.{leb, if◌then◌else◌}

-- `u64::MAX`. A `usize` is taken to be 64 bits wide too.
abbrev pub u64_max : ℕ
u64_max = 18_446_744_073_709_551_615

abbrev pub saturating_add : ℕ → ℕ → ℕ
saturating_add a b = min (a + b) u64_max

abbrev pub checked_add : ℕ → ℕ → Option ℕ
checked_add a b = if leb (a + b) u64_max then some (a + b) else none
