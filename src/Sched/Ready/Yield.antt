-- ===== src/Sched/Ready/Yield.antt =====
-- `scheduler_yield` on any valid scheduler: the lists keep their members.
use helix_rt.Prelude.{
  ℕ, ◌<◌, Ptr, ◌≡◌, refl, sym, ap, subst, ◌∙◌, inl, inr, List, [], ◌∷◌, ◌++◌, Bool, true, false,
  none, some, has, has-append, remove, ◌==◌, ==_self, eq_of_==, if◌then◌else◌, ltb, arith,
  Bool-cases, Option-cases,
}
use helix_rt.Config.{max_priority}
use helix_rt.Task.{put, set_prev}
use helix_rt.Sched.Links.{ready_insert_tail, clear_links}
use helix_rt.Sched.Chain.{Chain}
use helix_rt.Sched.{Sched, when_some, scheduler_trigger_switch}
use helix_rt.Sched.Ready.{scheduler_yield, yield_current, rotate, rotate_before}
use helix_rt.Sched.Valid.{IsValid}
use helix_rt.Sched.Valid.Insert.{append_queue, cons_of_head}
use helix_rt.Sched.Valid.Remove.{remove_queue}
use helix_rt.Sched.Ready.Priority.{scheduler_yield-rotates}

-- The lists are valid for some order of the same ready tasks.
abbrev pub HasReady : (ℕ → List ℕ) → List ℕ → Sched → Type 0
HasReady queues waiting s =
    (order : ℕ → List ℕ) × IsValid s order waiting
    × ((p a : ℕ) → has a (order p) ≡ has a (queues p))

pub HasReady_lem :
    (s : Sched) (queues : ℕ → List ℕ) (waiting : List ℕ)
    → IsValid s queues waiting
    → HasReady queues waiting s
HasReady_lem s queues waiting v = (queues, v, λ p a. refl)

-- Moving the head of a list to its end.
has-rotated :
    (queues : ℕ → List ℕ) (p c d : ℕ) (ts : List ℕ)
    → queues p ≡ c ∷ d ∷ ts
    → (r a : ℕ) → has a (append_queue (remove_queue queues p c) p c r) ≡ has a (queues r)
has-rotated queues p c d ts e r a = elim (Bool-cases (r == p)) [
  | inl q ↦
      let f : queues r ≡ c ∷ d ∷ ts = ap queues (eq_of_== r p q) ∙ e in
      rw (q, ==_self p, f) (rw e (moved))
  | inr q ↦ rw q refl
]
  where
    moved : has a (remove c (c ∷ d ∷ ts) ++ (c ∷ [])) ≡ has a (c ∷ d ∷ ts)
    moved = unfold remove in rw (==_self c) (ground (arith, has-append a (d ∷ ts) (c ∷ [])))

module _ (s : Sched) (queues : ℕ → List ℕ) (waiting : List ℕ) (v : IsValid s queues waiting) where
  abbrev quiet : Sched
  quiet = record s { primask = 1 }

  unmoved : HasReady queues waiting s
  unmoved = HasReady_lem s queues waiting v

  module _ (c p : ℕ) (small : p < max_priority) (prio : (s.tasks c).priority ≡ p)
      (cur : s.current_task ≡ some c) where
    -- What the body of the critical section leaves.
    after_yield :
        (z : Sched)
        → yield_current c quiet ≡ z
        → HasReady queues waiting z
        → HasReady queues waiting (scheduler_yield s)
    unfolding scheduler_yield
    after_yield z e h =
        subst (HasReady queues waiting)
          (sym (
            ap (λ (o : Ptr). record (when_some o yield_current quiet) { primask = s.primask }) cur
            ∙ ap (λ (x : Sched). record x { primask = s.primask }) e))
          h

    locked : ltb 0 s.lock_count ≡ true → HasReady queues waiting (scheduler_yield s)
    unfolding yield_current
    locked l =
        after_yield (record quiet { reschedule_pending = true })
          (ap
            (λ (b : Bool).
              if b
              then record quiet { reschedule_pending = true }
              else scheduler_trigger_switch
                  (rotate (s.ready_list (s.tasks c).priority) c (s.tasks c).priority quiet))
            l)
          unmoved

    -- Where the list of the current task's priority is not rotated.
    kept :
        ltb 0 s.lock_count ≡ false
        → rotate (s.ready_list p) c p quiet ≡ quiet
        → HasReady queues waiting (scheduler_yield s)
    unfolding scheduler_trigger_switch yield_current
    kept l e =
        after_yield (record quiet { pend_sv = true })
          (ap
              (λ (b : Bool).
                if b
                then record quiet { reschedule_pending = true }
                else scheduler_trigger_switch
                    (rotate (s.ready_list (s.tasks c).priority) c (s.tasks c).priority quiet))
              l
            ∙ ap (λ (k : ℕ). scheduler_trigger_switch (rotate (s.ready_list k) c k quiet)) prio
            ∙ ap scheduler_trigger_switch e)
          unmoved

    rotated :
        (d : ℕ) (ts : List ℕ)
        → queues p ≡ c ∷ d ∷ ts
        → ltb 0 s.lock_count ≡ false
        → HasReady queues waiting (scheduler_yield s)
    rotated d ts e l = (
      append_queue (remove_queue queues p c) p c,
      (scheduler_yield-rotates s queues waiting c d p ts v small e cur (ground arith)).0,
      has-rotated queues p c d ts e,
    )

    -- The head of the list, and the task behind it.
    headed :
        (h d : ℕ)
        → ltb 0 s.lock_count ≡ false
        → s.ready_list p ≡ some h
        → (s.tasks h).next ≡ some d
        → HasReady queues waiting (scheduler_yield s)
    headed h d l at_head behind = elim (Bool-cases (h == c)) [
      | inl e ↦
          let same : h ≡ c = eq_of_== h c e in
          let (xs, f) =
            cons_of_head s.tasks (queues p) (s.ready_list p) c (v.queue p small).chain
              (at_head ∙ ap some same) in
          let linked : Chain s.tasks none (c ∷ xs) (s.ready_list p) =
            subst (λ (l : List ℕ). Chain s.tasks none l (s.ready_list p)) f
              (v.queue p small).chain in
          let (ts, g) =
            tail_of_next xs (s.tasks c).next d linked.2
              (ap (λ (a : ℕ). (s.tasks a).next) (sym same) ∙ behind) in
          rotated d ts (f ∙ ap (λ (l : List ℕ). c ∷ l) g) l
      | inr e ↦ kept l (
          unfold rotate rotate_before in
          ap (λ (o : Ptr). rotate o c p quiet) at_head
          ∙ ap (λ (o : Ptr). rotate_before o h c p quiet) behind
          ∙ ap
              (λ (b : Bool).
                if b
                then ready_insert_tail h (record quiet {
                  ready_list = put quiet.ready_list p (some d);
                  tasks = clear_links h (set_prev d none quiet.tasks);
                })
                else quiet)
              e)
    ]
      where
        tail_of_next :
            (xs : List ℕ) (next : Ptr) (n : ℕ)
            → Chain s.tasks (some c) xs next
            → next ≡ some n
            → (ts : List ℕ) × (xs ≡ n ∷ ts)
        tail_of_next [] next n k m = cc
        tail_of_next (y ∷ ys) next n k m = (ys, ground arith)

    with_current : HasReady queues waiting (scheduler_yield s)
    with_current = elim (Bool-cases (ltb 0 s.lock_count)) [
      | inl l ↦ locked l
      | inr l ↦ elim (Option-cases (s.ready_list p)) [
        | inl e ↦ kept l (unfold rotate in ap (λ (o : Ptr). rotate o c p quiet) e)
        | inr (h, e) ↦ elim (Option-cases (s.tasks h).next) [
          | inl f ↦ kept l (
              unfold rotate rotate_before in
              ap (λ (o : Ptr). rotate o c p quiet) e
              ∙ ap (λ (o : Ptr). rotate_before o h c p quiet) f)
          | inr (d, f) ↦ headed h d l e f
        ]
      ]
    ]

  -- If the current task's priority is in range.
  pub scheduler_yield-HasReady :
      ((c : ℕ) → s.current_task ≡ some c → (s.tasks c).priority < max_priority)
      → HasReady queues waiting (scheduler_yield s)
  scheduler_yield-HasReady in_range = elim (Option-cases s.current_task) [
    | inl e ↦ subst (HasReady queues waiting) (sym (idle e)) unmoved
    | inr (c, e) ↦ with_current c (s.tasks c).priority (in_range c e) refl e
  ]
    where
      idle : s.current_task ≡ none → scheduler_yield s ≡ s
      idle e =
          unfold scheduler_yield in
          ap (λ (o : Ptr). record (when_some o yield_current quiet) { primask = s.primask }) e
