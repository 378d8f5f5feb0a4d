-- ===== src/Kernel/Slots.antt =====
-- `alloc_slot` and `free_slot` of kernel/kernel.c; index -1 is `none`.
pub mod Laws
use helix_rt.Prelude.{ℕ, zero, suc, ◌+◌, Option, none, some, ◌==◌, if◌then◌else◌}
use helix_rt.Task.{put}

-- The loop, from index `i` with `n` slots to go.
unfoldable pub alloc_from : ℕ → ℕ → (ℕ → ℕ) → Option ℕ × (ℕ → ℕ)
alloc_from zero i bitmap = (none, bitmap)
alloc_from (suc n) i bitmap =
    let rest = alloc_from n (i + 1) bitmap in
    if bitmap i == 0 then (some i, put bitmap i 1) else rest

unfoldable pub alloc_slot : (ℕ → ℕ) → ℕ → Option ℕ × (ℕ → ℕ)
unfolding alloc_from
alloc_slot bitmap count = alloc_from count 0 bitmap

unfoldable pub free_slot : (ℕ → ℕ) → Option ℕ → ℕ → ℕ
free_slot bitmap none = bitmap
free_slot bitmap (some idx) = put bitmap idx 0
