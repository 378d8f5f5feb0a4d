-- ===== src/Sched/Chain.antt =====
-- What a doubly linked list of control blocks stands for, as kernel/scheduler.c keeps them.
pub mod Unlink
pub mod Append
use helix_rt.Prelude.{
  ℕ, Ptr, ◌≡◌, refl, ◌≢◌, inl, inr, List, [], ◌∷◌, Bool, true, false, ◌||◌, none, some, has,
  Distinct, ◌==◌, arith, Bool-cases, eq_of_==, ◌∙◌, sym, ap,
}
use helix_rt.Task.{Tcb, Tcbs}

-- From `head` the `next` links lead through `xs` to NULL, and the `prev` links lead back to `prev`.
abbrev pub Chain : Tcbs → Ptr → List ℕ → Ptr → Type 0
Chain tasks prev [] head = head ≡ none
Chain tasks prev (x ∷ xs) head =
    (head ≡ some x) × ((tasks x).prev ≡ prev) × Chain tasks (some x) xs (tasks x).next

-- The links of `a` are the same in both stores.
abbrev pub SameLinks : Tcbs → Tcbs → ℕ → Type 0
SameLinks t u a = ((u a).next ≡ (t a).next) × ((u a).prev ≡ (t a).prev)

-- A chain survives a change of the store that keeps the links of its members.
pub Chain-frame :
    (t u : Tcbs) (xs : List ℕ) (prev head : Ptr)
    → ((a : ℕ) → has a xs ≡ true → SameLinks t u a)
    → Chain t prev xs head
    → Chain u prev xs head
Chain-frame t u [] prev head same c = c
Chain-frame t u (x ∷ xs) prev head same (e, p, c) =
    let here : SameLinks t u x = same x (ground arith) in
    (
      e,
      here.1 ∙ p,
      rw (here.0) (Chain-frame t u xs (some x) (t x).next (λ a h. same a (ground (arith, h))) c),
    )

module _ (t : Tcbs) where
  -- The `next` of a member is a later member.
  pub next-mem :
      (xs : List ℕ) (prev head : Ptr) (a n : ℕ)
      → Chain t prev xs head
      → has a xs ≡ true
      → (t a).next ≡ some n
      → has n xs ≡ true
  next-mem [] prev head a n c h e = absurd (ground arith)
  next-mem (x ∷ []) prev head a n c h e = ground arith
  next-mem (x ∷ y ∷ ys) prev head a n (_, _, c) h e = elim (Bool-cases (a == x)) [
    | inl q ↦ ground (arith, c.0)
    | inr q ↦ ground (arith, next-mem (y ∷ ys) (some x) (t x).next a n c (ground arith) e)
  ]

  -- No member of a chain of distinct blocks links to itself.
  pub next-ne :
      (xs : List ℕ) (prev head : Ptr) (a : ℕ)
      → Chain t prev xs head
      → Distinct xs
      → has a xs ≡ true
      → (t a).next ≢ some a
  next-ne [] prev head a c d h e = absurd (ground arith)
  next-ne (x ∷ []) prev head a c d h e = absurd (ground arith)
  next-ne (x ∷ y ∷ ys) prev head a (_, _, c) d h e = elim (Bool-cases (a == x)) [
    | inl q ↦ ground (arith, c.0)
    | inr q ↦ next-ne (y ∷ ys) (some x) (t x).next a c d.1 (ground arith) e
  ]

  -- The `prev` of a member behind the head is an earlier member.
  pub prev-mem :
      (y : ℕ) (ys : List ℕ) (prev head : Ptr) (a : ℕ)
      → Chain t prev (y ∷ ys) head
      → has a ys ≡ true
      → (z : ℕ) × ((t a).prev ≡ some z) × (has z (y ∷ ys) ≡ true)
  prev-mem y [] prev head a c h = absurd (ground arith)
  prev-mem y (z ∷ zs) prev head a (_, _, c) h = elim (Bool-cases (a == z)) [
    | inl q ↦ (y, ground (arith, c.1), ground arith)
    | inr q ↦
        let w : (w : ℕ) × ((t a).prev ≡ some w) × (has w (z ∷ zs) ≡ true) =
          prev-mem z zs (some y) (t y).next a c (ground arith) in
        (w.0, w.1, ground (arith, w.2))
  ]

  pub prev-ne :
      (xs : List ℕ) (prev head : Ptr) (a : ℕ)
      → Chain t prev xs head
      → Distinct xs
      → prev ≢ some a
      → has a xs ≡ true
      → (t a).prev ≢ some a
  prev-ne [] prev head a c d out h e = absurd (ground arith)
  prev-ne (x ∷ xs) prev head a (_, p, c) d out h e = elim (Bool-cases (a == x)) [
    | inl q ↦ ground arith
    | inr q ↦ prev-ne xs (some x) (t x).next a c d.1 (ground arith) (ground arith) e
  ]
