-- ===== src/Bitmap/Laws.antt =====
-- The bitmap is a set of priorities, and `bitmap_find_highest` finds its least member.
use native.Mathlib.Nat.{pow-suc, one-le-pow}
use helix_rt.Prelude.{
  ℕ, zero, suc, ◌-◌, ◌/◌, ◌%◌, ◌^◌, ◌<◌, ◌≡◌, inl, inr, arith, bit_and, true, false, ◌==◌,
  if◌then◌else◌, Bool-cases,
}
use helix_rt.Prelude.Bits.{
  bit, bit-bit_or, bit-bit_and, bit-pow, bit-zero, bit-lt-two, bit_complement, bit_or-lt,
  bit_and-lt,
}
use helix_rt.Config.{word}
use helix_rt.Bitmap.{
  count_trailing_zeros, bitmap_find_highest, bitmap_set, bitmap_clear, bitmap_test,
}

pub pow-lt : (n b : ℕ) → b < n → 2 ^ b < 2 ^ n
pow-lt zero b h = absurd (omega arith)
pow-lt (suc n) zero h = omega (arith, pow-suc 2 n, one-le-pow n 2)
pow-lt (suc n) (suc b) h = omega (arith, pow-suc 2 n, pow-suc 2 b, pow-lt n b (omega arith))

shift-small : (b : ℕ) → b < 32 → 2 ^ b % word ≡ 2 ^ b
shift-small b h = omega (arith, pow-lt 32 b h)

pub bit-bitmap_set : (m b i : ℕ) → b < 32 → bit (bitmap_set m b) i ≡ (if i == b then 1 else bit m i)
unfolding bitmap_set
bit-bitmap_set m b i h = rw (shift-small b h, bit-bit_or, bit-pow) (ground (arith, bit-lt-two m i))

pub bit-bitmap_clear :
    (m b i : ℕ) → b < 32 → i < 32 → bit (bitmap_clear m b) i ≡ (if i == b then 0 else bit m i)
unfolding bitmap_clear
bit-bitmap_clear m b i h k =
    rw (shift-small b h, bit-bit_and, bit_complement 32 (2 ^ b) i (pow-lt 32 b h) k, bit-pow)
      (ground (arith, bit-lt-two m i))

pub bitmap_set-lt : (m b : ℕ) → m < word → b < 32 → bitmap_set m b < word
unfolding bitmap_set
bitmap_set-lt m b h k = rw (shift-small b k) (bit_or-lt 32 m (2 ^ b) h (pow-lt 32 b k))

pub bitmap_clear-lt : (m b : ℕ) → m < word → bitmap_clear m b < word
unfolding bitmap_clear
bitmap_clear-lt m b h = bit_and-lt 32 m (word - 1 - 2 ^ b % word) h

-- The lowest set bit of a word below `2 ^ width`.
pub record IsLowest (m p : ℕ) : Type 0 where
  pub bit_set : bit m p ≡ 1
  pub below : (i : ℕ) → i < p → bit m i ≡ 0

count_trailing_zeros-IsLowest :
    (width m : ℕ)
    → 0 < m
    → m < 2 ^ width
    → IsLowest m (count_trailing_zeros width m) × (count_trailing_zeros width m < width)
unfolding count_trailing_zeros bit
count_trailing_zeros-IsLowest zero m h k = absurd (omega arith)
count_trailing_zeros-IsLowest (suc width) m h k = elim (Bool-cases (m % 2 == 1)) [
  | inl odd ↦
      rw odd (record { bit_set = ground arith; below = λ i l. absurd (omega arith) }, omega arith)
  | inr even ↦ rw even (
      let (rest, small) =
        count_trailing_zeros-IsLowest width (m / 2) (ground arith)
          (omega (arith, pow-suc 2 width)) in
      (record { bit_set = rest.bit_set; below = below rest even }, omega arith))
]
  where
    below : {c : ℕ} → IsLowest (m / 2) c → (m % 2 == 1) ≡ false → (i : ℕ) → i < suc c → bit m i ≡ 0
    below rest even zero l = ground arith
    below rest even (suc i) l = rest.below i (omega arith)

-- On a nonzero 32-bit word `bitmap_find_highest` returns the position of the lowest set bit.
pub bitmap_find_highest-IsLowest :
    (m : ℕ) → 0 < m → m < word → IsLowest m (bitmap_find_highest m) × (bitmap_find_highest m < 32)
unfolding bitmap_find_highest
bitmap_find_highest-IsLowest m h k =
    let (low, small) = count_trailing_zeros-IsLowest 32 m h k in
    let e : (if m == 0 then 32 else count_trailing_zeros 32 m % 2 ^ 8) ≡ count_trailing_zeros 32 m =
      ground arith in
    rw e (low, small)

-- A word with no bit set below its width is 0.
eq-zero_of_bits : (width m : ℕ) → m < 2 ^ width → ((i : ℕ) → i < width → bit m i ≡ 0) → m ≡ 0
unfolding bit
eq-zero_of_bits zero m h bits = omega arith
eq-zero_of_bits (suc width) m h bits = omega (
  arith,
  bits 0 (omega arith),
  eq-zero_of_bits width (m / 2) (omega (arith, pow-suc 2 width))
      (λ i l. bits (suc i) (omega arith)),
)

pub eq-zero_of_no_bit : (m : ℕ) → m < word → ((i : ℕ) → i < 32 → bit m i ≡ 0) → m ≡ 0
eq-zero_of_no_bit m h bits = eq-zero_of_bits 32 m h bits

pub pos_of_bit : (m i : ℕ) → bit m i ≡ 1 → 0 < m
pos_of_bit zero i h = absurd (omega (arith, bit-zero i))
pos_of_bit (suc m) i h = omega arith

and-pow-zero : (m b : ℕ) → b < 32 → m < word → bit m b ≡ 0 → bit_and m (2 ^ b) ≡ 0
and-pow-zero m b h k off =
    eq-zero_of_no_bit (bit_and m (2 ^ b)) (bit_and-lt 32 m (2 ^ b) k)
      λ i l. rw (bit-bit_and, bit-pow) (ground (arith, off, eq_at i))
  where
    eq_at : (i : ℕ) → (i == b) ≡ true → bit m i ≡ 0
    eq_at i e = ground arith

pub bitmap_test-bit : (m b : ℕ) → b < 32 → m < word → bitmap_test m b ≡ (bit m b == 1)
unfolding bitmap_test
bitmap_test-bit m b h k = rw (shift-small b h) (elim (Bool-cases (bit m b == 1)) [
  | inl on ↦ ground (arith, pos_of_bit (bit_and m (2 ^ b)) b, bit-bit_and m (2 ^ b) b, bit-pow b b)
  | inr off ↦ ground (arith, and-pow-zero m b h k, bit-lt-two m b)
])
