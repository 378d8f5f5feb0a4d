-- ===== src/Bitmap.antt =====
-- The priority bitmap helpers of kernel/scheduler.h, on 32-bit words.
pub mod Laws
use helix_rt.Prelude.{
  ℕ, zero, suc, ◌-◌, ◌/◌, ◌%◌, ◌^◌, Bool, not, bit_and, bit_or, ◌==◌, if◌then◌else◌,
}
use helix_rt.Config.{word, max_priority}

-- `__builtin_ctz` on a nonzero word: the number of zero bits below the lowest set one.
unfoldable pub count_trailing_zeros : ℕ → ℕ → ℕ
count_trailing_zeros zero n = 0
count_trailing_zeros (suc width) n =
    let rest = count_trailing_zeros width (n / 2) in if n % 2 == 1 then 0 else suc rest

unfoldable pub bitmap_find_highest : ℕ → ℕ
unfolding count_trailing_zeros
bitmap_find_highest bitmap =
    if bitmap == 0 then max_priority else count_trailing_zeros 32 bitmap % 2 ^ 8

unfoldable pub bitmap_set : ℕ → ℕ → ℕ
bitmap_set bitmap b = bit_or bitmap (2 ^ b % word)

unfoldable pub bitmap_clear : ℕ → ℕ → ℕ
bitmap_clear bitmap b = bit_and bitmap (word - 1 - 2 ^ b % word)

unfoldable pub bitmap_test : ℕ → ℕ → Bool
bitmap_test bitmap b = not (bit_and bitmap (2 ^ b % word) == 0)
