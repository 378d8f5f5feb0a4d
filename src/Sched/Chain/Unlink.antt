-- ===== src/Sched/Chain/Unlink.antt =====
-- Unlinking a block removes it from its chain: the list code of `blocked_remove` and of
-- `scheduler_remove_task`.
use helix_rt.Prelude.{
  ℕ, Ptr, ◌≡◌, refl, ◌≢◌, inl, inr, List, [], ◌∷◌, true, false, none, some, has, Distinct, remove,
  ◌==◌, same_ptr, if◌then◌else◌, arith, Bool-cases, ◌∙◌, sym,
}
use helix_rt.Task.{Tcbs}
use helix_rt.Sched.Links.{unlink}
use helix_rt.Sched.Chain.{Chain, SameLinks, Chain-frame, next-mem, next-ne, prev-mem, prev-ne}

module _ (tasks : Tcbs) (t : ℕ) where
  pub unlink-next :
      (a : ℕ)
      → (tasks t).next ≢ some t
      → (tasks t).prev ≢ some t
      → (unlink t tasks a).next ≡ (
          if a == t
          then none
          else (if same_ptr (tasks t).prev (some a) then (tasks t).next else (tasks a).next))
  unfolding unlink
  unlink-next a n p = ground arith

  pub unlink-prev :
      (a : ℕ)
      → (tasks t).next ≢ some t
      → (tasks t).prev ≢ some t
      → (unlink t tasks a).prev ≡ (
          if a == t
          then none
          else (if same_ptr (tasks t).next (some a) then (tasks t).prev else (tasks a).prev))
  unfolding unlink
  unlink-prev a n p = ground arith

  -- No other field changes.
  pub unlink-fields :
      (a : ℕ)
      → ((unlink t tasks a).priority ≡ (tasks a).priority)
        × ((unlink t tasks a).state ≡ (tasks a).state)
        × ((unlink t tasks a).block_reason ≡ (tasks a).block_reason)
        × ((unlink t tasks a).block_object ≡ (tasks a).block_object)
  unfolding unlink
  unlink-fields a = (ground arith, ground arith, ground arith, ground arith)

-- The head that is left when `t` is unlinked from a list with this head.
abbrev pub head_without : Tcbs → ℕ → Ptr → Ptr
head_without tasks t head = if same_ptr head (some t) then (tasks t).next else head

module _ (tasks : Tcbs) (t : ℕ) where
  -- Of a list with its predecessor outside: the member behind the predecessor is the head.
  prev-eq-head :
      (xs : List ℕ) (p : ℕ) (head : Ptr)
      → Chain tasks (some p) xs head
      → Distinct xs
      → has p xs ≡ false
      → has t xs ≡ true
      → same_ptr (tasks t).prev (some p) ≡ same_ptr head (some t)
  prev-eq-head [] p head c d out h = absurd (ground arith)
  prev-eq-head (x ∷ xs) p head c d out h = elim (Bool-cases (t == x)) [
    | inl q ↦ ground arith
    | inr q ↦ let (z, e, m) = prev-mem tasks x xs (some p) head t c (ground arith) in ground arith
  ]

  -- A block that is no neighbour of `t` keeps its links.
  pub SameLinks-unlink :
      (a : ℕ)
      → (tasks t).next ≢ some t
      → (tasks t).prev ≢ some t
      → a ≢ t
      → (tasks t).next ≢ some a
      → (tasks t).prev ≢ some a
      → SameLinks tasks (unlink t tasks) a
  SameLinks-unlink a n p ne no_next no_prev =
      (ground (arith, unlink-next tasks t a n p), ground (arith, unlink-prev tasks t a n p))

  -- The list behind `t` becomes a list behind the predecessor of `t`.
  Chain-unlink_behind :
      (ys : List ℕ) (prev : Ptr)
      → (tasks t).prev ≡ prev
      → Chain tasks (some t) ys (tasks t).next
      → Distinct (t ∷ ys)
      → ((a : ℕ) → prev ≡ some a → has a (t ∷ ys) ≡ false)
      → Chain (unlink t tasks) prev ys (tasks t).next
  Chain-unlink_behind [] prev p c d out = c
  Chain-unlink_behind (y ∷ ys) prev p (e, q, c) d out =
      let n : (tasks t).next ≢ some t = ground arith in
      let m : (tasks t).prev ≢ some t = λ f. ground (arith, out t (sym p ∙ f)) in
      (
        e,
        ground (arith, unlink-prev tasks t y n m),
        rw (unlink-next tasks t y n m, keeps)
            (Chain-frame tasks (unlink t tasks) ys (some y) (tasks y).next
              (λ a h.
                SameLinks-unlink a n m (ground arith) (ground arith)
                  (λ f. ground (arith, out a (sym p ∙ f))))
              c),
      )
    where
      keeps :
          (if y == t
            then none
            else (if same_ptr (tasks t).prev (some y) then (tasks t).next else (tasks y).next))
          ≡ (tasks y).next
      keeps = elim (Bool-cases (same_ptr (tasks t).prev (some y))) [
        | inl f ↦ ground (arith, out y)
        | inr f ↦ ground arith
      ]

  pub Chain-unlink :
      (xs : List ℕ) (prev head : Ptr)
      → Chain tasks prev xs head
      → Distinct xs
      → ((a : ℕ) → prev ≡ some a → has a xs ≡ false)
      → has t xs ≡ true
      → Chain (unlink t tasks) prev (remove t xs) (head_without tasks t head)
  unfolding remove
  Chain-unlink [] prev head c d out h = absurd (ground arith)
  Chain-unlink (x ∷ xs) prev head (e, p, c) d out h = elim (Bool-cases (t == x)) [
    | inl q ↦
        let f : t ≡ x = ground arith in
        let q' : (x == t) ≡ true = ground arith in
        rw (q, e, q') (Chain-unlink_behind xs prev (rw f p) (rw f c) (rw f d) (rw f out))
    | inr q ↦
        let here : has t xs ≡ true = ground arith in
        let apart : (a : ℕ) → some x ≡ some a → has a xs ≡ false = λ a f. ground arith in
        let n : (tasks t).next ≢ some t = next-ne tasks xs (some x) (tasks x).next t c d.1 here in
        let m : (tasks t).prev ≢ some t =
          prev-ne tasks xs (some x) (tasks x).next t c d.1 (ground arith) here in
        let no_next : (tasks t).next ≢ some x =
          λ f. ground (arith, next-mem tasks xs (some x) (tasks x).next t x c here f) in
        let same : same_ptr (tasks t).prev (some x) ≡ same_ptr (tasks x).next (some t) =
          prev-eq-head xs x (tasks x).next c d.1 d.0 here in
        let q' : (x == t) ≡ false = ground arith in
        rw (q, e, q')
          (
            refl,
            ground (arith, unlink-prev tasks t x n m),
            rw (unlink-next tasks t x n m, same, q')
                (Chain-unlink xs (some x) (tasks x).next c d.1 apart here),
          )
  ]
