-- ===== src/Prelude/Int.antt =====
-- `int32_t` values: integers over the native numbers, with the tests and steps that the code uses.
use helix_rt.Prelude.Tests.{ltb, ◌==◌, if◌then◌else◌}
use Prim.Native.Nat.{ℕ, zero, suc, ◌-◌, ◌^◌}
use mathlib.Core.Bool.{Bool, true, false, not}

-- `negsuc n` is -(n + 1).
pub data ℤ : Type 0 where
  pos : ℕ → ℤ
  negsuc : ℕ → ℤ

-- a < b, a <= b
abbrev pub ltb_ℤ : ℤ → ℤ → Bool
ltb_ℤ (pos a) (pos b) = ltb a b
ltb_ℤ (pos a) (negsuc b) = false
ltb_ℤ (negsuc a) (pos b) = true
ltb_ℤ (negsuc a) (negsuc b) = ltb b a

abbrev pub leb_ℤ : ℤ → ℤ → Bool
leb_ℤ a b = not (ltb_ℤ b a)

abbrev pub int32_max : ℕ
int32_max = 2 ^ 31 - 1

-- x + 1 and x - 1 on 32 bits. Where C leaves the sum undefined it is taken to wrap.
abbrev pub increment : ℤ → ℤ
increment (pos n) = if n == int32_max then negsuc int32_max else pos (suc n)
increment (negsuc zero) = pos 0
increment (negsuc (suc n)) = negsuc n

abbrev pub decrement : ℤ → ℤ
decrement (pos zero) = negsuc 0
decrement (pos (suc n)) = pos n
decrement (negsuc n) = if n == int32_max then pos int32_max else negsuc (suc n)
