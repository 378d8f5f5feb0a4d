-- ===== src/Sync/Queue/Laws/Window.antt =====
-- Windows of slots on the ring of a queue, and what storing a message does to them.
use native.Mathlib.Decide.{dec_lt}
use native.Mathlib.Nat.{mod-add-mod, mod-eq_of_lt, mod-eq-sub-mod, add-zero}
use mathlib.Core.Path.{ap₂}
use helix_rt.Prelude.{
  ℕ, zero, suc, ◌+◌, ◌-◌, ◌*◌, ◌%◌, ◌<◌, ◌≡◌, refl, sym, ap, ◌∙◌, ◌≢◌, List, [], ◌∷◌, ◌++◌, arith,
}
use helix_rt.Sync.Queue.{Bytes, mem_copy}
use helix_rt.Sync.Queue.Laws.{read, read-mem_copy, read-mem_copy_apart, slots_apart}

-- The bytes of slot `i`.
abbrev pub slot : Bytes → ℕ → ℕ → List ℕ
slot buffer size i = read (i * size) size buffer

-- The `n` messages from slot `t` on, going round at `cap`.
abbrev pub window : Bytes → ℕ → ℕ → ℕ → ℕ → List (List ℕ)
window buffer size cap t zero = []
window buffer size cap t (suc n) = slot buffer size t ∷ window buffer size cap ((t + 1) % cap) n

-- Fewer than `cap` steps round the ring do not come back to the start.
pub step-ne : (cap t k : ℕ) → t < cap → suc k < cap → (t + suc k) % cap ≢ t
step-ne cap t k ht hk = elim (dec_lt (t + suc k) cap) [
  | yes p ↦ omega (arith, mod-eq_of_lt p)
  | no p ↦ omega (
    arith,
    mod-eq-sub-mod {n = t + suc k} {m = cap} (omega arith),
    mod-eq_of_lt {n = t + suc k - cap} {m = cap} (omega arith),
  )
]

module _ (size cap : ℕ) (buffer msg : Bytes) where
  -- The buffer after a message has been copied into slot `i`.
  abbrev stored : ℕ → Bytes
  stored i = mem_copy size (i * size) 0 msg buffer

  pub slot-stored_self : (i : ℕ) → slot (stored i) size i ≡ read 0 size msg
  slot-stored_self i = read-mem_copy size (i * size) 0 msg buffer

  pub slot-stored_ne : (i j : ℕ) → i ≢ j → slot (stored i) size j ≡ slot buffer size j
  slot-stored_ne i j ne =
      read-mem_copy_apart size (i * size) 0 (j * size) msg buffer
        (slots_apart j i size (λ e. ne (sym e)))

  -- Storing just behind a window extends it by that message.
  pub window-stored_behind :
      (n t i : ℕ)
      → t < cap
      → n < cap
      → i ≡ (t + n) % cap
      → window (stored i) size cap t (suc n) ≡ window buffer size cap t n ++ (read 0 size msg ∷ [])
  window-stored_behind zero t i ht hn e =
      let f : i ≡ t = e ∙ ap (λ (k : ℕ). k % cap) (add-zero t) ∙ mod-eq_of_lt ht in
      rw f (rw (slot-stored_self t) refl)
  window-stored_behind (suc n) t i ht hn e =
      ap₂ ◌∷◌ (slot-stored_ne i t (rw e (step-ne cap t n ht hn)))
        (window-stored_behind n ((t + 1) % cap) i (omega arith) (omega arith) (e ∙ shift))
    where
      shift : (t + suc n) % cap ≡ ((t + 1) % cap + n) % cap
      shift = rw mod-add-mod (ap (λ (k : ℕ). k % cap) (omega arith))

  -- Storing at a slot leaves a window alone that starts `j + 1` slots behind it and ends before it.
  pub window-stored_apart :
      (n j t i : ℕ)
      → i < cap
      → j + n < cap
      → t ≡ (i + suc j) % cap
      → window (stored i) size cap t n ≡ window buffer size cap t n
  window-stored_apart zero j t i hi h e = refl
  window-stored_apart (suc n) j t i hi h e =
      ap₂ ◌∷◌ (slot-stored_ne i t (λ f. step-ne cap i j hi (omega arith) (sym e ∙ sym f)))
        (window-stored_apart n (suc j) ((t + 1) % cap) i hi (omega arith) (rw e shift))
    where
      shift : ((i + suc j) % cap + 1) % cap ≡ (i + suc (suc j)) % cap
      shift = rw mod-add-mod (ap (λ (k : ℕ). k % cap) (omega arith))

-- `window` matches on `suc`, the code tests the count.
pub window_of_pos :
    (buffer : Bytes) (size cap t n : ℕ)
    → 0 < n
    → window buffer size cap t n
      ≡ slot buffer size t ∷ window buffer size cap ((t + 1) % cap) (n - 1)
window_of_pos buffer size cap t zero h = absurd (omega arith)
window_of_pos buffer size cap t (suc n) h =
    ap (λ (k : ℕ). window buffer size cap t (suc k)) (omega arith)
