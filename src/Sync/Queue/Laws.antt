-- ===== src/Sync/Queue/Laws.antt =====
-- kernel/sync/queue.c as a bounded double-ended queue of messages: what the ring of bytes stands for,
-- and what each primitive does to it.
pub mod Window
pub mod Ring
pub mod Api
pub mod Sends
pub mod Receives
use native.Mathlib.Decide.{dec_lt}
use helix_rt.Prelude.{
  ℕ, zero, suc, ◌+◌, ◌-◌, ◌*◌, ◌%◌, ◌≤◌, ◌<◌, ◌≡◌, refl, sym, ap, ◌∙◌, inl, inr, ◌⊎◌, ◌≢◌, List, [],
  ◌∷◌, ◌++◌, Bool, true, false, ◌==◌, if◌then◌else◌, arith, Bool-cases,
}
use mathlib.Core.Path.{ap₂}
use helix_rt.Config.{word}
use helix_rt.Task.{put}
use helix_rt.Sync.Queue.{Bytes, MsgQueue, mem_copy, queue_slot_ptr}

-- `len` bytes from an offset on.
abbrev pub read : ℕ → ℕ → Bytes → List ℕ
read off zero b = []
read off (suc len) b = b off ∷ read (suc off) len b

pub read_ext :
    (i j len : ℕ) (a b : Bytes)
    → ((k : ℕ) → k < len → a (i + k) ≡ b (j + k))
    → read i len a ≡ read j len b
read_ext i j zero a b h = refl
read_ext i j (suc len) a b h = ap₂ ◌∷◌ (at a i ∙ h 0 (omega arith) ∙ sym (at b j)) (
    read_ext (suc i) (suc j) len a b
      λ k l. shift a i k ∙ h (suc k) (omega arith) ∙ sym (shift b j k))
  where
    at : (c : Bytes) (n : ℕ) → c n ≡ c (n + 0)
    at c n = ap c (omega arith)

    shift : (c : Bytes) (n k : ℕ) → c (suc n + k) ≡ c (n + suc k)
    shift c n k = ap c (omega arith)

pub mem_copy-outside :
    (len d s x : ℕ) (src dst : Bytes) → (x < d) ⊎ (d + len ≤ x) → mem_copy len d s src dst x ≡ dst x
unfolding mem_copy
mem_copy-outside zero d s x src dst h = refl
mem_copy-outside (suc len) d s x src dst h =
    mem_copy-outside len (d + 1) (s + 1) x src (put dst d (src s)) (omega arith) ∙ ground arith

pub mem_copy-inside :
    (len d s k : ℕ) (src dst : Bytes) → k < len → mem_copy len d s src dst (d + k) ≡ src (s + k)
unfolding mem_copy
mem_copy-inside zero d s k src dst h = absurd (omega arith)
mem_copy-inside (suc len) d s zero src dst h =
    mem_copy-outside len (d + 1) (s + 1) (d + 0) src (put dst d (src s)) (omega arith) ∙ put_at
  where
    put_at : put dst d (src s) (d + 0) ≡ src (s + 0)
    put_at =
        let e : d + 0 ≡ d = omega arith in
        let f : s + 0 ≡ s = omega arith in rw (e, f) (ground arith)
mem_copy-inside (suc len) d s (suc k) src dst h =
    ap (mem_copy len (d + 1) (s + 1) src (put dst d (src s))) (omega arith)
    ∙ mem_copy-inside len (d + 1) (s + 1) k src (put dst d (src s)) (omega arith)
    ∙ ap src (omega arith)

-- Reading back what was copied, and reading beside it.
pub read-mem_copy :
    (len d s : ℕ) (src dst : Bytes) → read d len (mem_copy len d s src dst) ≡ read s len src
read-mem_copy len d s src dst =
    read_ext d s len (mem_copy len d s src dst) src λ k h. mem_copy-inside len d s k src dst h

pub read-mem_copy_apart :
    (len d s i : ℕ) (src dst : Bytes)
    → (i + len ≤ d) ⊎ (d + len ≤ i)
    → read i len (mem_copy len d s src dst) ≡ read i len dst
read-mem_copy_apart len d s i src dst apart =
    read_ext i i len (mem_copy len d s src dst) dst
      λ k h. mem_copy-outside len d s (i + k) src dst (omega arith)

-- A slot ends where the next begins, so different slots do not overlap.
pub slot-in_range : (i cap size : ℕ) → i < cap → i * size + size ≤ cap * size
slot-in_range i cap size h = grind arith

pub slots_apart :
    (i j size : ℕ) → i ≢ j → (i * size + size ≤ j * size) ⊎ (j * size + size ≤ i * size)
slots_apart i j size ne = elim (dec_lt i j) [
  | yes h ↦ inl (slot-in_range i j size h)
  | no h ↦ inr (slot-in_range j i size (omega arith))
]
