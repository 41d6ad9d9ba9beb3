-- ===== src/Base/Words.antt =====
-- 32-bit values. A value of any 32-bit C type is its bit pattern, a number below 2 ^ 32; signed
-- comparison reads the pattern through `bias`. A 16-bit value is kept sign-extended.
use Prim.Native.Nat.{ℕ, ◌+◌, ◌-◌, ◌*◌, ◌/◌, ◌%◌, ◌^◌}
use mathlib.Core.Bool.{Bool}
use os_demand_paging.Base.Tests.{ltb, leb}

abbrev pub add32 : ℕ → ℕ → ℕ
add32 a b = (a + b) % 2 ^ 32

abbrev pub sub32 : ℕ → ℕ → ℕ
sub32 a b = (a + (2 ^ 32 - b)) % 2 ^ 32

abbrev pub mul32 : ℕ → ℕ → ℕ
mul32 a b = (a * b) % 2 ^ 32

-- `x << k` and `x >> k`
abbrev pub shl : ℕ → ℕ → ℕ
shl x k = (x * 2 ^ k) % 2 ^ 32

abbrev pub shr : ℕ → ℕ → ℕ
shr x k = x / 2 ^ k

-- `bias x` is x + 2^31 for the signed reading of the pattern: signed order is the order of these.
abbrev pub bias : ℕ → ℕ
bias x = (x + 2 ^ 31) % 2 ^ 32

abbrev pub slt : ℕ → ℕ → Bool
slt a b = ltb (bias a) (bias b)

abbrev pub sle : ℕ → ℕ → Bool
sle a b = leb (bias a) (bias b)

-- the pattern of -1
abbrev pub minus_one : ℕ
minus_one = 0xffff_ffff

-- `SYSERR` and `OK` of kernel.h
abbrev pub syserr : ℕ
syserr = 0xffff_ffff

abbrev pub ok : ℕ
ok = 1
