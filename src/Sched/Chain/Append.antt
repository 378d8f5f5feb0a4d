-- ===== src/Sched/Chain/Append.antt =====
-- Adding a block at the tail (`ready_insert_tail`) and at the head (`blocked_insert`) of a chain.
use helix_rt.Prelude.{
  ℕ, zero, suc, ◌≤◌, Ptr, ◌≡◌, refl, ◌≢◌, List, [], ◌∷◌, ◌++◌, true, false, none, some, has,
  Distinct, length, arith, ◌∙◌, sym, subst,
}
use helix_rt.Task.{Tcbs, put, set_next, set_prev}
use helix_rt.Sched.Links.{last_of, set_prev_at}
use helix_rt.Sched.Chain.{Chain, SameLinks, Chain-frame}

-- The last of `x ∷ xs`.
unfoldable pub last : ℕ → List ℕ → ℕ
last x [] = x
last x (y ∷ ys) = last y ys

pub last-mem : (x : ℕ) (xs : List ℕ) → has (last x xs) (x ∷ xs) ≡ true
unfolding last
last-mem x [] = ground arith
last-mem x (y ∷ ys) = ground (arith, last-mem y ys)

-- With fuel for the list's length the walk ends at the last block.
pub last_of-eq-last :
    (fuel : ℕ) (tasks : Tcbs) (x : ℕ) (xs : List ℕ) (prev : Ptr)
    → length (x ∷ xs) ≤ fuel
    → Chain tasks prev (x ∷ xs) (some x)
    → last_of fuel tasks x ≡ last x xs
unfolding last_of last
last_of-eq-last zero tasks x xs prev h c = absurd (omega arith)
last_of-eq-last (suc fuel) tasks x [] prev h (_, _, c) = rw (c, last_of)
last_of-eq-last (suc fuel) tasks x (y ∷ ys) prev h (_, _, c) =
    rw (c.0, last_of) (last_of-eq-last fuel tasks y ys (some x) (omega arith) (refl, c.1, c.2))

-- `tail->next = t; t->prev = tail;`
abbrev pub attach : ℕ → ℕ → Tcbs → Tcbs
attach tail t tasks = set_prev t (some tail) (set_next tail (some t) tasks)

SameLinks-attach :
    (tasks : Tcbs) (tail t a : ℕ) → a ≢ tail → a ≢ t → SameLinks tasks (attach tail t tasks) a
SameLinks-attach tasks tail t a p q = (ground arith, ground arith)

pub Chain-attach :
    (tasks : Tcbs) (t x : ℕ) (xs : List ℕ) (prev head : Ptr)
    → Chain tasks prev (x ∷ xs) head
    → Distinct (x ∷ xs)
    → has t (x ∷ xs) ≡ false
    → (tasks t).next ≡ none
    → Chain (attach (last x xs) t tasks) prev ((x ∷ xs) ++ (t ∷ [])) head
unfolding last
Chain-attach tasks t x [] prev head (e, p, c) d out n =
    (e, ground arith, (ground arith, ground arith, ground arith))
Chain-attach tasks t x (y ∷ ys) prev head (e, p, c) d out n =
    let u : Tcbs = attach (last y ys) t tasks in
    let ne : x ≢ last y ys = λ f. ground (arith, last-mem y ys) in
    let same : SameLinks tasks u x = SameLinks-attach tasks (last y ys) t x ne (ground arith) in
    (
      e,
      same.1 ∙ p,
      rw (same.0) (Chain-attach tasks t y ys (some x) (tasks x).next c d.1 (ground arith) n),
    )

-- `tcb->next = head; tcb->prev = NULL; if (head != NULL) head->prev = tcb;`
abbrev pub prepend : ℕ → Ptr → Tcbs → Tcbs
prepend t head tasks =
    set_prev_at head (some t) (put tasks t (record (tasks t) { next = head; prev = none }))

pub Chain-prepend :
    (tasks : Tcbs) (t : ℕ) (xs : List ℕ) (head : Ptr)
    → Chain tasks none xs head
    → Distinct xs
    → has t xs ≡ false
    → Chain (prepend t head tasks) none (t ∷ xs) (some t)
Chain-prepend tasks t [] head c d out = rw c (refl, ground arith, ground arith)
Chain-prepend tasks t (x ∷ xs) head (e, p, c) d out =
    let u : Tcbs = prepend t (some x) tasks in
    let moved : (u x).next ≡ (tasks x).next = ground arith in
    subst (λ h. Chain (prepend t h tasks) none (t ∷ x ∷ xs) (some t)) (sym e)
      (
        refl,
        ground arith,
        (
          ground arith,
          ground arith,
          rw moved (
              Chain-frame tasks u xs (some x) (tasks x).next (λ a h. (ground arith, ground arith))
                c),
        ),
      )
