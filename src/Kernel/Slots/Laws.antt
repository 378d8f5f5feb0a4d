-- ===== src/Kernel/Slots/Laws.antt =====
-- The slot allocator hands out the first free slot, and only a free one.
use helix_rt.Prelude.{
  ℕ, zero, suc, ◌+◌, ◌≤◌, ◌<◌, ◌≡◌, ◌≢◌, Option, none, some, Bool-cases, inl, inr, ◌==◌, eq_of_==,
  arith,
}
use helix_rt.Task.{put}
use helix_rt.Kernel.Slots.{alloc_from, alloc_slot}

-- The result of a search that starts at `i`, with `n` slots to go.
pub data Allocated (bitmap : ℕ → ℕ) (i n : ℕ) : Option ℕ × (ℕ → ℕ) → Type 0 where
  full : ((j : ℕ) → i ≤ j → j < i + n → bitmap j ≢ 0) → Allocated bitmap i n (none, bitmap)
  slot :
      (k : ℕ)
      → i ≤ k
      → k < i + n
      → bitmap k ≡ 0
      → ((j : ℕ) → i ≤ j → j < k → bitmap j ≢ 0)
      → Allocated bitmap i n (some k, put bitmap k 1)

-- One more slot in use in front.
in_use :
    (bitmap : ℕ → ℕ) (i e : ℕ)
    → bitmap i ≢ 0
    → ((j : ℕ) → i + 1 ≤ j → j < e → bitmap j ≢ 0)
    → (j : ℕ) → i ≤ j
    → j < e
    → bitmap j ≢ 0
in_use bitmap i e used h j a b = elim (Bool-cases (j == i)) [
  | inl q ↦ rw (eq_of_== j i q) used
  | inr q ↦ h j (ground arith) b
]

later :
    (bitmap : ℕ → ℕ) (i n : ℕ)
    → bitmap i ≢ 0
    → (out : Option ℕ × (ℕ → ℕ)) → Allocated bitmap (i + 1) n out
    → Allocated bitmap i (suc n) out
later bitmap i n used out (full h) =
    full (λ j a b. in_use bitmap i (i + 1 + n) used h j a (omega arith))
later bitmap i n used out (slot k a b free h) =
    slot k (omega arith) (omega arith) free (λ j c d. in_use bitmap i k used h j c d)

alloc_from-Allocated : (n i : ℕ) (bitmap : ℕ → ℕ) → Allocated bitmap i n (alloc_from n i bitmap)
unfolding alloc_from
alloc_from-Allocated zero i bitmap = full (λ j a b. absurd (omega arith))
alloc_from-Allocated (suc n) i bitmap = elim (Bool-cases (bitmap i == 0)) [
  | inl e ↦ rw e (slot i (omega arith) (omega arith) (ground arith) (λ j a b. absurd (omega arith)))
  | inr e ↦ rw e (later bitmap i n (ground arith) _ (alloc_from-Allocated n (i + 1) bitmap))
]

-- `alloc_slot` returns -1 and changes nothing exactly where every slot is in use; else it returns the
-- first free slot and marks that one.
pub alloc_slot-Allocated :
    (bitmap : ℕ → ℕ) (count : ℕ) → Allocated bitmap 0 count (alloc_slot bitmap count)
unfolding alloc_slot
alloc_slot-Allocated bitmap count = alloc_from-Allocated count 0 bitmap
