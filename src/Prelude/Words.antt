-- ===== src/Prelude/Words.antt =====
-- Machine words: `u32` with wrap-around, and `i64` where no operation of the source can leave it.
use Prim.Native.Nat.{ℕ, ◌+◌, ◌-◌, ◌%◌, ◌^◌}
use mathlib.Core.Bool.{Bool, true, false}
use rust_randchain_prototype.Prelude.Tests.{leb, if◌then◌else◌}

-- `-` on `u32` wraps in the release profile.
abbrev pub sub_u32 : ℕ → ℕ → ℕ
sub_u32 a b = ((a + 2 ^ 32) - b) % 2 ^ 32

-- `negsuc n` is `-(n + 1)`.
pub data ℤ : Type 0 where
  pos negsuc : ℕ → ℤ

abbrev pub difference : ℕ → ℕ → ℤ
difference a b = if leb b a then pos (a - b) else negsuc (b - a - 1)

abbrev pub leb_int : ℤ → ℤ → Bool
leb_int (pos a) (pos b) = leb a b
leb_int (pos a) (negsuc b) = false
leb_int (negsuc a) (pos b) = true
leb_int (negsuc a) (negsuc b) = leb b a

-- `cmp::max` and `cmp::min`.
abbrev pub max_int : ℤ → ℤ → ℤ
max_int a b = if leb_int a b then b else a

abbrev pub min_int : ℤ → ℤ → ℤ
min_int a b = if leb_int a b then a else b

-- `as u32` of an `i64` keeps the low 32 bits of its two's complement.
abbrev pub int_as_u32 : ℤ → ℕ
int_as_u32 (pos a) = a % 2 ^ 32
int_as_u32 (negsuc a) = (2 ^ 32 - 1) - a % 2 ^ 32
