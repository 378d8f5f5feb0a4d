-- ===== src/Prelude/Lists.antt =====
-- Lists of addresses: membership as a test, distinctness, removal, and the pigeonhole bound.
use Prim.Native.Nat.{ℕ, zero, suc, ◌+◌, ◌≤◌, ◌<◌}
use mathlib.Core.Path.{◌≡◌, refl}
use mathlib.Core.Logic.{inl, inr}
use mathlib.Core.Bool.{Bool, true, false, ◌||◌}
use mathlib.Core.List.{List, [], ◌∷◌, ◌++◌}
use native.Mathlib.Omega.{arith}
use helix_rt.Prelude.Tests.{◌==◌, if◌then◌else◌, Bool-cases}

abbrev pub length {ℓ} : {A : Type ℓ} → List A → ℕ
length [] = 0
length (x ∷ xs) = suc (length xs)

abbrev pub has : ℕ → List ℕ → Bool
has a [] = false
has a (x ∷ xs) = (a == x) || has a xs

abbrev pub Distinct : List ℕ → Type 0
Distinct [] = Unit {0}
Distinct (x ∷ xs) = (has x xs ≡ false) × Distinct xs

-- Drops the first occurrence.
unfoldable pub remove : ℕ → List ℕ → List ℕ
remove a [] = []
remove a (x ∷ xs) = if a == x then xs else x ∷ remove a xs

pub has-append : (a : ℕ) (xs ys : List ℕ) → has a (xs ++ ys) ≡ (has a xs || has a ys)
has-append a [] ys = refl
has-append a (x ∷ xs) ys = ground (arith, has-append a xs ys)

pub has-remove : (a t : ℕ) (xs : List ℕ) → has a xs ≡ false → has a (remove t xs) ≡ false
unfolding remove
has-remove a t [] h = refl
has-remove a t (x ∷ xs) h = ground (arith, has-remove a t xs)

pub has_of_has-remove : (a t : ℕ) (xs : List ℕ) → has a (remove t xs) ≡ true → has a xs ≡ true
unfolding remove
has_of_has-remove a t [] h = h
has_of_has-remove a t (x ∷ xs) h = ground (arith, has_of_has-remove a t xs)

pub has-remove_self : (t : ℕ) (xs : List ℕ) → Distinct xs → has t (remove t xs) ≡ false
unfolding remove
has-remove_self t [] d = refl
has-remove_self t (x ∷ xs) d = ground (arith, has-remove_self t xs)

pub has-remove_ne : (a t : ℕ) (xs : List ℕ) → (a == t) ≡ false → has a (remove t xs) ≡ has a xs
unfolding remove
has-remove_ne a t [] h = refl
has-remove_ne a t (x ∷ xs) h = ground (arith, has-remove_ne a t xs)

pub Distinct-remove : (t : ℕ) (xs : List ℕ) → Distinct xs → Distinct (remove t xs)
unfolding remove
Distinct-remove t [] d = d
Distinct-remove t (x ∷ xs) d = elim (Bool-cases (t == x)) [
  | inl e ↦ rw e d.1
  | inr e ↦ rw e (has-remove x t xs d.0, Distinct-remove t xs d.1)
]

pub Distinct-snoc :
    (t : ℕ) (xs : List ℕ) → Distinct xs → has t xs ≡ false → Distinct (xs ++ (t ∷ []))
Distinct-snoc t [] d h = (refl, tt)
Distinct-snoc t (x ∷ xs) d h =
    (ground (arith, has-append x xs (t ∷ [])), Distinct-snoc t xs d.1 (ground arith))

pub remove_absent : (t : ℕ) (xs : List ℕ) → has t xs ≡ false → remove t xs ≡ xs
unfolding remove
remove_absent t [] h = refl
remove_absent t (x ∷ xs) h = ground (arith, remove_absent t xs)

length-le-remove : (t : ℕ) (xs : List ℕ) → length xs ≤ 1 + length (remove t xs)
unfolding remove
length-le-remove t [] = omega arith
length-le-remove t (x ∷ xs) = ground (arith, length-le-remove t xs)

-- Distinct addresses below `n` are at most `n`.
pub length-le :
    (n : ℕ) (xs : List ℕ) → Distinct xs → ((a : ℕ) → has a xs ≡ true → a < n) → length xs ≤ n
length-le n [] d small = omega arith
length-le zero (x ∷ xs) d small = absurd (ground (arith, small x))
length-le (suc n) (x ∷ xs) d small = omega (
  arith,
  length-le-remove n (x ∷ xs),
  length-le n (remove n (x ∷ xs)) (Distinct-remove n (x ∷ xs) d) smaller,
)
  where
    smaller : (a : ℕ) → has a (remove n (x ∷ xs)) ≡ true → a < n
    smaller a h = elim (Bool-cases (a == n)) [
      | inl e ↦ ground (arith, has-remove_self n (x ∷ xs))
      | inr e ↦ ground (arith, has_of_has-remove a n (x ∷ xs) h, small a)
    ]
