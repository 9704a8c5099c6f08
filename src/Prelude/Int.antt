-- ===== src/Prelude/Int.antt =====
-- Signed integers over the native numbers, their comparison, and the 32-bit integers that label
-- values are stored in.
use Prim.Native.Nat.{ℕ, ◌-◌, ◌%◌}
use mathlib.Core.Path.{◌≡◌}
use mathlib.Core.Logic.{◌↔◌}
use mathlib.Core.Bool.{Bool, true, false}
use native.Mathlib.Omega.{arith}
use aml_storage.Prelude.Tests.{ltb, nat_beq, if◌then◌else◌}

-- `negsuc n` is -(n + 1).
pub data ℤ : Type 0 where
  pos : ℕ → ℤ
  negsuc : ℕ → ℤ

unfoldable pub int_beq : ℤ → ℤ → Bool
int_beq (pos a) (pos b) = nat_beq a b
int_beq (negsuc a) (negsuc b) = nat_beq a b
int_beq (pos a) (negsuc b) = false
int_beq (negsuc a) (pos b) = false

pub int_beq_iff : (a b : ℤ) → (int_beq a b ≡ true) ↔ (a ≡ b)
unfolding int_beq
int_beq_iff (pos a) (pos b) = ground arith
int_beq_iff (negsuc a) (negsuc b) = ground arith
int_beq_iff (pos a) (negsuc b) = ground arith
int_beq_iff (negsuc a) (pos b) = ground arith

-- a < b
abbrev pub int_ltb : ℤ → ℤ → Bool
int_ltb (pos a) (pos b) = ltb a b
int_ltb (negsuc a) (negsuc b) = ltb b a
int_ltb (pos a) (negsuc b) = false
int_ltb (negsuc a) (pos b) = true

-- The values that fit a signed 32-bit integer.
abbrev pub is_int32 : ℤ → Bool
is_int32 (pos n) = ltb n 0x8000_0000
is_int32 (negsuc n) = ltb n 0x8000_0000

-- The integer whose 32-bit two's complement pattern is `bits`.
abbrev pub of_bits : ℕ → ℤ
of_bits bits = if ltb bits 0x8000_0000 then pos bits else negsuc (0xffff_ffff - bits)

-- `ctypes.c_int32(v)`: reduction modulo 2 ^ 32.
unfoldable pub c_int32 : ℤ → ℤ
c_int32 (pos n) = of_bits (n % 0x1_0000_0000)
c_int32 (negsuc n) = of_bits (0xffff_ffff - n % 0x1_0000_0000)

pub c_int32_self : (v : ℤ) → is_int32 v ≡ true → c_int32 v ≡ v
unfolding c_int32
c_int32_self (pos n) h = ground arith
c_int32_self (negsuc n) h = ground arith

pub is_int32-c_int32 : (v : ℤ) → is_int32 (c_int32 v) ≡ true
unfolding c_int32
is_int32-c_int32 (pos n) = ground arith
is_int32-c_int32 (negsuc n) = ground arith
