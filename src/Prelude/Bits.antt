-- ===== src/Prelude/Bits.antt =====
-- Bits of native numbers: `bit n i` is the i-th binary digit, and the laws of `|`, `&` and `~`.
use Prim.Native.Nat.{
  ℕ, zero, suc, ◌-◌, ◌/◌, ◌%◌, ◌^◌, ◌≤◌, ◌<◌, min, max, bit_and, bit_or, digits, bit_and-bitwise,
  bit_or-bitwise,
}
use mathlib.Core.Path.{◌≡◌, refl, sym, ap, subst, ◌∙◌}
use native.Mathlib.Nat.{le_refl, pow-suc, one-le-pow}
use native.Mathlib.Omega.{arith}
use helix_rt.Prelude.Tests.{◌==◌, if◌then◌else◌}

unfoldable pub bit : ℕ → ℕ → ℕ
bit n zero = n % 2
bit n (suc i) = bit (n / 2) i

pub bit-zero : (i : ℕ) → bit 0 i ≡ 0
unfolding bit
bit-zero zero = refl
bit-zero (suc i) = bit-zero i

-- `digits z f n a b` combines the digits of `a` and `b` by `f`, and is `z b` where `a` has run out.
module _ (z : ℕ → ℕ) (f : ℕ → ℕ → ℕ) (digit : (x y : ℕ) → x < 2 → y < 2 → f x y < 2) where
  new_digit : (a b : ℕ) → f (a % 2) (b % 2) < 2
  new_digit a b = digit (a % 2) (b % 2) (omega arith) (omega arith)

  bit-digits :
      ((b i : ℕ) → bit (z b) i ≡ f 0 (bit b i))
      → (i n a b : ℕ) → a ≤ n
      → bit (digits z f n a b) i ≡ f (bit a i) (bit b i)
  unfolding bit
  bit-digits rest i zero zero b h = rw (bit-zero i) (rest b i)
  bit-digits rest i zero (suc a) b h = absurd (omega arith)
  bit-digits rest i (suc n) zero b h = rw (bit-zero i) (rest b i)
  bit-digits rest zero (suc n) (suc a) b h = omega (arith, new_digit (suc a) b)
  bit-digits rest (suc i) (suc n) (suc a) b h =
      ap (λ (m : ℕ). bit m i) (omega (arith, new_digit (suc a) b))
      ∙ bit-digits rest i n (suc a / 2) (b / 2) (omega arith)

  digits-lt :
      ((b : ℕ) → z b ≤ b) → (w n a b : ℕ) → a ≤ n → a < 2 ^ w → b < 2 ^ w → digits z f n a b < 2 ^ w
  digits-lt rest w zero zero b h p q = omega (arith, rest b)
  digits-lt rest w zero (suc a) b h p q = absurd (omega arith)
  digits-lt rest w (suc n) zero b h p q = omega (arith, rest b)
  digits-lt rest zero (suc n) (suc a) b h p q = absurd (omega arith)
  digits-lt rest (suc w) (suc n) (suc a) b h p q = omega (
    arith,
    pow-suc 2 w,
    new_digit (suc a) b,
    digits-lt rest w n (suc a / 2) (b / 2) (omega arith) (omega (arith, pow-suc 2 w))
        (omega (arith, pow-suc 2 w)),
  )

pub bit-bit_or : (a b i : ℕ) → bit (bit_or a b) i ≡ max (bit a i) (bit b i)
bit-bit_or a b i =
    ap (λ (m : ℕ). bit m i) (bit_or-bitwise a b)
    ∙ bit-digits (λ y. y) max (λ x y p q. omega arith) (λ c k. omega arith) i a a b (le_refl a)

pub bit-bit_and : (a b i : ℕ) → bit (bit_and a b) i ≡ min (bit a i) (bit b i)
bit-bit_and a b i =
    ap (λ (m : ℕ). bit m i) (bit_and-bitwise a b)
    ∙ bit-digits (λ y. 0) min (λ x y p q. omega arith) (λ c k. omega (arith, bit-zero k)) i a a b
        (le_refl a)

pub bit-lt-two : (a i : ℕ) → bit a i < 2
unfolding bit
bit-lt-two a zero = omega arith
bit-lt-two a (suc i) = bit-lt-two (a / 2) i

half-pow : (k : ℕ) → 2 ^ suc k / 2 ≡ 2 ^ k
half-pow k = omega (arith, pow-suc 2 k)

pub bit-pow : (k i : ℕ) → bit (2 ^ k) i ≡ (if i == k then 1 else 0)
unfolding bit
bit-pow zero zero = refl
bit-pow zero (suc i) = ground (arith, bit-zero i)
bit-pow (suc k) zero = ground (arith, pow-suc 2 k)
bit-pow (suc k) (suc i) = rw (half-pow k) (ground (arith, bit-pow k i))

complement-half : (n x : ℕ) → x < 2 ^ suc n → (2 ^ suc n - 1 - x) / 2 ≡ 2 ^ n - 1 - x / 2
complement-half n x h = omega (arith, pow-suc 2 n, one-le-pow n 2)

-- `~x` on an `n`-bit word.
pub bit_complement : (n x i : ℕ) → x < 2 ^ n → i < n → bit (2 ^ n - 1 - x) i ≡ 1 - bit x i
unfolding bit
bit_complement zero x i h k = absurd (omega arith)
bit_complement (suc n) x zero h k = omega (arith, pow-suc 2 n, one-le-pow n 2)
bit_complement (suc n) x (suc i) h k =
    rw (complement-half n x h)
      (bit_complement n (x / 2) i (omega (arith, pow-suc 2 n)) (omega arith))

pub bit_or-lt : (n a b : ℕ) → a < 2 ^ n → b < 2 ^ n → bit_or a b < 2 ^ n
bit_or-lt n a b p q =
    subst (λ (m : ℕ). m < 2 ^ n) (sym (bit_or-bitwise a b))
      (digits-lt (λ y. y) max (λ x y h k. omega arith) (λ c. le_refl c) n a a b (le_refl a) p q)

common_digits-le : (n a b : ℕ) → a ≤ n → digits (λ y. 0) min n a b ≤ a
common_digits-le zero zero b h = omega arith
common_digits-le zero (suc a) b h = absurd (omega arith)
common_digits-le (suc n) zero b h = omega arith
common_digits-le (suc n) (suc a) b h =
    omega (arith, common_digits-le n (suc a / 2) (b / 2) (omega arith))

pub bit_and-lt : (n a b : ℕ) → a < 2 ^ n → bit_and a b < 2 ^ n
bit_and-lt n a b p =
    subst (λ (m : ℕ). m < 2 ^ n) (sym (bit_and-bitwise a b))
      (omega (arith, common_digits-le a a b (le_refl a)))
