-- ===== src/Sched/Valid/Insert.antt =====
-- `ready_insert_tail` appends to the ready list of the task's priority; the other lists stay as they
-- are.
use helix_rt.Prelude.{
  ℕ, ◌<◌, ◌≤◌, Ptr, ◌≡◌, ◌≢◌, refl, sym, subst, ◌∙◌, inl, inr, List, [], ◌∷◌, ◌++◌, false, none,
  some, has, arith, Bool-cases, Option-cases, ◌==◌, length, length-le, has-append, Distinct-snoc,
}
use helix_rt.Config.{word, max_priority}
use helix_rt.Task.{Tcbs, put}
use helix_rt.Bitmap.{bitmap_set}
use helix_rt.Bitmap.Laws.{bit-bitmap_set, bitmap_set-lt}
use helix_rt.Sched.{Sched, update_tcb}
use helix_rt.Sched.Links.{last_of, clear_links, append_ready, ready_insert_tail}
use helix_rt.Sched.Chain.{Chain}
use helix_rt.Sched.Chain.Append.{last, last-mem, last_of-eq-last, attach, Chain-attach}
use helix_rt.Sched.Valid.{IsReadyAt, Queue, IsValid, IsLoose}
use helix_rt.Sched.Valid.Frame.{
  SameAt, Queue-frame, Waiting-frame, ready_apart, blocked_apart, update_loose-IsValid,
}

-- A ready list is shorter than the fuel of the walk along it.
pub Queue-length :
    (t : Tcbs) (m : ℕ) (head : Ptr) (p : ℕ) (xs : List ℕ) → Queue t m head p xs → length xs ≤ word
Queue-length t m head p xs q = length-le word xs q.distinct λ a h. (q.members a h).address

SameAt-attach :
    (tasks : Tcbs) (tail t a : ℕ) → a ≢ tail → a ≢ t → SameAt tasks (attach tail t tasks) a
SameAt-attach tasks tail t a p q = record {
  links = (ground arith, ground arith);
  priority = ground arith;
  state = ground arith;
}

-- The fields that decide membership are untouched by an attachment, at every block.
attach-fields :
    (tasks : Tcbs) (tail t a : ℕ)
    → ((attach tail t tasks a).priority ≡ (tasks a).priority)
      × ((attach tail t tasks a).state ≡ (tasks a).state)
attach-fields tasks tail t a = (ground arith, ground arith)

module _ (tasks : Tcbs) (m p t : ℕ) (small : p < max_priority) (here : IsReadyAt tasks p t)
    (cleared : (tasks t).next ≡ none) (cleared_prev : (tasks t).prev ≡ none) where
  -- The first task of a list.
  Queue-first : Queue tasks (bitmap_set m p) (some t) p (t ∷ [])
  Queue-first = record {
    chain = (refl, cleared_prev, cleared);
    distinct = (refl, tt);
    members = λ a h. let e : t ≡ a = ground arith in subst (λ (b : ℕ). IsReadyAt tasks p b) e here;
    marked = ground (arith, bit-bitmap_set m p p small);
  }

  -- A further task.
  Queue-attach :
      (x : ℕ) (xs : List ℕ)
      → Queue tasks m (some x) p (x ∷ xs)
      → has t (x ∷ xs) ≡ false
      → Queue (attach (last x xs) t tasks) m (some x) p ((x ∷ xs) ++ (t ∷ []))
  Queue-attach x xs q out = record {
    chain = Chain-attach tasks t x xs none (some x) q.chain q.distinct out cleared;
    distinct = Distinct-snoc t (x ∷ xs) q.distinct out;
    members = λ a h. elim (Bool-cases (has a (x ∷ xs))) [
      | inl old ↦ moved a (q.members a old)
      | inr new ↦
          let e : t ≡ a = ground (arith, has-append a (x ∷ xs) (t ∷ [])) in
          subst (λ (b : ℕ). IsReadyAt (attach (last x xs) t tasks) p b) e (moved t here)
    ];
    marked = q.marked;
  }
    where
      moved : (a : ℕ) → IsReadyAt tasks p a → IsReadyAt (attach (last x xs) t tasks) p a
      moved a r = record {
        priority = (attach-fields tasks (last x xs) t a).0 ∙ r.priority;
        runnable = rw ((attach-fields tasks (last x xs) t a).1) (r.runnable);
        address = r.address;
      }

pub nil_of_null :
    (t : Tcbs) (xs : List ℕ) (head : Ptr) → Chain t none xs head → head ≡ none → xs ≡ []
nil_of_null t [] head c e = refl
nil_of_null t (x ∷ xs) head c e = absurd (ground arith)

-- A chain with a head is not empty.
pub cons_of_head :
    (t : Tcbs) (xs : List ℕ) (head : Ptr) (h : ℕ)
    → Chain t none xs head
    → head ≡ some h
    → (ys : List ℕ) × (xs ≡ h ∷ ys)
cons_of_head t [] head h c e = absurd (ground arith)
cons_of_head t (x ∷ xs) head h c e = (xs, ground arith)

abbrev pub append_queue : (ℕ → List ℕ) → ℕ → ℕ → ℕ → List ℕ
append_queue queues p t = put queues p (queues p ++ (t ∷ []))

module _ (s : Sched) (queues : ℕ → List ℕ) (waiting : List ℕ) (v : IsValid s queues waiting)
    (p t : ℕ) (small : p < max_priority) (here : IsReadyAt s.tasks p t)
    (cleared : (s.tasks t).next ≡ none) (cleared_prev : (s.tasks t).prev ≡ none)
    (loose : IsLoose t queues waiting) where
  append_null :
      s.ready_list p ≡ none → IsValid (append_ready none t p s) (append_queue queues p t) waiting
  unfolding append_ready
  append_null e = record {
    bitmap_word = bitmap_set-lt s.priority_bitmap p v.bitmap_word small;
    queue = λ i hi. elim (Bool-cases (i == p)) [
      | inl f ↦
          let g : p ≡ i = ground arith in
          let nil : queues p ≡ [] =
            nil_of_null s.tasks (queues p) (s.ready_list p) (v.queue p small).chain e in
          rw (f, nil)
            (subst (λ j. Queue s.tasks (bitmap_set s.priority_bitmap p) (some t) j (t ∷ [])) g
              (Queue-first s.tasks s.priority_bitmap p t small here cleared cleared_prev))
      | inr f ↦ rw f (
          Queue-frame s.tasks s.tasks s.priority_bitmap (bitmap_set s.priority_bitmap p)
            (s.ready_list i) i (queues i)
            (λ a h. record { links = (refl, refl); priority = refl; state = refl })
            (ground (arith, bit-bitmap_set s.priority_bitmap p i small)) (v.queue i hi))
    ];
    wait_list = v.wait_list;
  }

  append_cons :
      (x : ℕ) (xs : List ℕ)
      → s.ready_list p ≡ some x
      → queues p ≡ x ∷ xs
      → IsValid (append_ready (some x) t p s) (append_queue queues p t) waiting
  unfolding append_ready
  append_cons x xs e cons =
      let q : Queue s.tasks s.priority_bitmap (s.ready_list p) p (queues p) = v.queue p small in
      let q' : Queue s.tasks s.priority_bitmap (some x) p (x ∷ xs) =
        subst (λ ys. Queue s.tasks s.priority_bitmap (some x) p ys) cons
          (subst (λ h. Queue s.tasks s.priority_bitmap h p (queues p)) e q) in
      let out : has t (x ∷ xs) ≡ false = rw cons at (loose.0 p small) in
      let tail : ℕ = last x xs in
      let u : Tcbs = attach tail t s.tasks in
      let on : IsReadyAt s.tasks p tail = q'.members tail (last-mem x xs) in
      let found : last_of word s.tasks x ≡ tail =
        last_of-eq-last word s.tasks x xs none
          (Queue-length s.tasks s.priority_bitmap (some x) p (x ∷ xs) q') q'.chain in
      rw found (record {
        bitmap_word = v.bitmap_word;
        queue = λ i hi. elim (Bool-cases (i == p)) [
          | inl f ↦
              let g : p ≡ i = ground arith in
              rw (f, cons)
                (subst (λ j. Queue u s.priority_bitmap (s.ready_list j) j (x ∷ xs ++ (t ∷ []))) g
                  (rw e (
                    Queue-attach s.tasks s.priority_bitmap p t small here cleared cleared_prev x xs
                      q' out)))
          | inr f ↦
              let ne : p ≢ i = ground arith in
              rw f (
                Queue-frame s.tasks u s.priority_bitmap s.priority_bitmap (s.ready_list i) i
                  (queues i)
                  (λ a h.
                    SameAt-attach s.tasks tail t a
                      (λ k.
                        ready_apart s.tasks p i tail a on ((v.queue i hi).members a h) ne (sym k))
                      (λ k. ground (arith, loose.0 i hi)))
                  refl (v.queue i hi))
        ];
        wait_list =
            Waiting-frame s.tasks u s.blocked_head waiting
              (λ a h.
                SameAt-attach s.tasks tail t a
                  (λ k. blocked_apart s.tasks p tail a on (v.wait_list.members a h) (sym k))
                  (λ k. ground (arith, loose.1)))
              v.wait_list;
      })

  append_some :
      (x : ℕ)
      → s.ready_list p ≡ some x
      → IsValid (append_ready (some x) t p s) (append_queue queues p t) waiting
  append_some x e =
      let (xs, cons) =
        cons_of_head s.tasks (queues p) (s.ready_list p) x (v.queue p small).chain e in
      append_cons x xs e cons

  pub append_ready-IsValid :
      IsValid (append_ready (s.ready_list p) t p s) (append_queue queues p t) waiting
  append_ready-IsValid = elim (Option-cases (s.ready_list p)) [
    | inl e ↦ rw e (append_null e)
    | inr (x, e) ↦ rw e (append_some x e)
  ]

-- `ready_insert_tail` puts a runnable task that is on no list at the end of the ready list of its
-- priority.
pub ready_insert_tail-IsValid :
    (s : Sched) (queues : ℕ → List ℕ) (waiting : List ℕ) (t p : ℕ)
    → IsValid s queues waiting
    → p < max_priority
    → IsReadyAt s.tasks p t
    → IsLoose t queues waiting
    → IsValid (ready_insert_tail t s) (append_queue queues p t) waiting
unfolding ready_insert_tail
ready_insert_tail-IsValid s queues waiting t p v small here loose =
    subst
      (λ (k : ℕ).
        IsValid
          (append_ready (s.ready_list k) t k
            (update_tcb t (λ b. record b { next = none; prev = none }) s))
          (append_queue queues p t) waiting)
      (sym here.priority)
      (append_ready-IsValid (update_tcb t (λ b. record b { next = none; prev = none }) s) queues
        waiting
        (update_loose-IsValid s queues waiting v t (λ b. record b { next = none; prev = none })
          loose)
        p t small moved (ground arith) (ground arith) loose)
  where
    moved : IsReadyAt (clear_links t s.tasks) p t
    moved = record {
      priority = ground (arith, here.priority);
      runnable = ground (arith, here.runnable);
      address = here.address;
    }
