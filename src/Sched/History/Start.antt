-- ===== src/Sched/History/Start.antt =====
-- The steps of `scheduler_start` and `scheduler_set_priority` on a valid scheduler.
use helix_rt.Prelude.{
  ◌∙◌, ap, Option, Option-cases, inl, inr, Option-cases, ℕ, ◌<◌, Ptr, ◌≡◌, refl, sym, ap, subst,
  ◌∙◌, inl, inr, List, true, false, none, some, has, ◌==◌, leb, ==_self, arith, either, Bool-cases,
}
use helix_rt.Config.{max_priority}
use helix_rt.Task.{Tcb, put}
use helix_rt.Sched.{Sched, update_tcb}
use helix_rt.Sched.Ranks.{InRange, SameRanks-InRange}
use helix_rt.Sched.Ranks.Entry.{scheduler_add_task-SameRanks, scheduler_remove_task-SameRanks}
use helix_rt.Sched.Ready.{
  is_runnable, scheduler_add_task, scheduler_remove_task, scheduler_set_priority,
  scheduler_get_next,
}
use helix_rt.Sched.Ready.Laws.{IsNext, idle, first, scheduler_get_next-IsNext}
use helix_rt.Sched.Valid.{IsValid}
use helix_rt.Sched.History.{run}
use helix_rt.Sched.Chain.{Chain-frame}
use helix_rt.Sched.Ready.{scheduler_start}
use helix_rt.Task.{Tcbs}
use helix_rt.Sched.History.{
  launched_tcb, choose_first, set_priority, start, choose, launch, rank, add, remove,
}
use helix_rt.Sched.Valid.{IsReadyAt}
use helix_rt.Sched.Valid.Frame.{Waiting-frame, SameAt-put, ready-not-waiting}

-- What an assignment to the control block of `t` leaves of the bound.
pub update_tcb-InRange :
    (s : Sched) (t : ℕ) (f : Tcb → Tcb)
    → (f (s.tasks t)).priority < max_priority
    → InRange s
    → InRange (update_tcb t f s)
update_tcb-InRange s t f small r c e = elim (Bool-cases (c == t)) [
  | inl k ↦ rw k small
  | inr k ↦ rw k (r c e)
]

pub set_priority-InRange :
    (s : Sched) (t n : ℕ)
    → n < max_priority
    → InRange s
    → InRange (scheduler_set_priority (some t) n s)
unfolding scheduler_set_priority
set_priority-InRange s t n small r =
    let pass : leb max_priority n ≡ false = ground arith in
    let gone : Sched = scheduler_remove_task (some t) s in
    let change : Tcb → Tcb = λ b. record b { priority = n } in
    let changed : Sched = update_tcb t change gone in
    rw pass (
      either InRange (scheduler_add_task t changed) (update_tcb t change s)
        (is_runnable (s.tasks t))
        (SameRanks-InRange changed (scheduler_add_task t changed)
          (scheduler_add_task-SameRanks t changed)
          (update_tcb-InRange gone t change small
            (SameRanks-InRange s gone (scheduler_remove_task-SameRanks t s) r)))
        (update_tcb-InRange s t change small r))

-- The task that a switch makes current heads a ready list.
pub next-InRange :
    (s : Sched) (order : ℕ → List ℕ) (asleep : List ℕ) (o : Ptr)
    → IsValid s order asleep
    → IsNext order o
    → (c : ℕ) → o ≡ some c
    → (s.tasks c).priority < max_priority
next-InRange s order asleep o v (idle empty) c e = absurd (ground arith)
next-InRange s order asleep o v (first p t ts hp at_head above) c e =
    let here : has t (order p) ≡ true = rw at_head (ground (arith, ==_self t)) in
    let k : t ≡ c = ground arith in rw (← k, ((v.queue p hp).members t here).priority) hp

-- `scheduler_start` by the task that is chosen.
start-none : (s : Sched) → scheduler_get_next s ≡ none → run start s ≡ s
unfolding run scheduler_start
start-none s e =
    ap
      (λ (o : Ptr).
        elim (elim o as (λ x. Option Sched) [
          | none ↦ none
          | some x ↦ some (update_tcb x launched_tcb (choose_first (some x) s))
        ])
          as (λ x. Sched) [ none ↦ s | some s' ↦ s' ])
      e

start-some :
    (s : Sched) (t : ℕ)
    → scheduler_get_next s ≡ some t
    → run start s ≡ update_tcb t launched_tcb (choose_first (some t) s)
unfolding run scheduler_start
start-some s t e =
    ap
      (λ (o : Ptr).
        elim (elim o as (λ x. Option Sched) [
          | none ↦ none
          | some x ↦ some (update_tcb x launched_tcb (choose_first (some x) s))
        ])
          as (λ x. Sched) [ none ↦ s | some s' ↦ s' ])
      e

module _ (s : Sched) (order : ℕ → List ℕ) (asleep : List ℕ) (v : IsValid s order asleep) (t p : ℕ)
    (hp : p < max_priority) (here : has t (order p) ≡ true) where
  -- A ready task may be made the running one.
  pub launch-IsValid : IsValid (update_tcb t launched_tcb s) order asleep
  launch-IsValid = record {
    bitmap_word = v.bitmap_word;
    queue = λ r hr. record {
      chain =
          Chain-frame s.tasks changed (order r) none (s.ready_list r)
            (λ a h. (ground arith, ground arith)) (v.queue r hr).chain;
      distinct = (v.queue r hr).distinct;
      members = λ a h. ready_still r a ((v.queue r hr).members a h);
      marked = (v.queue r hr).marked;
    };
    wait_list =
        Waiting-frame s.tasks changed s.blocked_head asleep
          (λ a h.
            SameAt-put s.tasks t a (launched_tcb (s.tasks t))
              (λ e. ground (arith, ready-not-waiting s order asleep v t p hp here)))
          v.wait_list;
  }
    where
      changed : Tcbs
      changed = put s.tasks t (launched_tcb (s.tasks t))

      ready_still : (r a : ℕ) → IsReadyAt s.tasks r a → IsReadyAt changed r a
      ready_still r a m = record {
        priority = ground (arith, m.priority);
        runnable = ground (arith, m.runnable);
        address = m.address;
      }

module _ (s : Sched) (order : ℕ → List ℕ) (asleep : List ℕ) (v : IsValid s order asleep) where
  -- The task that is chosen is on a ready list.
  next-queue :
      (t : ℕ)
      → scheduler_get_next s ≡ some t
      → (p : ℕ) × (p < max_priority) × (has t (order p) ≡ true)
  next-queue t e = of_next (scheduler_get_next s) (scheduler_get_next-IsNext s order asleep v) e
    where
      of_next :
          (o : Ptr)
          → IsNext order o
          → o ≡ some t
          → (p : ℕ) × (p < max_priority) × (has t (order p) ≡ true)
      of_next o (idle empty) k = absurd (ground arith)
      of_next o (first p x ts hp at_head above) k =
          let same : x ≡ t = ground arith in
          (p, hp, rw (← same, at_head) (ground (arith, ==_self x)))

  pub choose_keeps : InRange s → InRange (run choose s) × IsValid (run choose s) order asleep
  unfolding run
  choose_keeps r = go (scheduler_get_next s) (scheduler_get_next-IsNext s order asleep v)
    where
      go :
          (o : Ptr)
          → IsNext order o
          → InRange (choose_first o s) × IsValid (choose_first o s) order asleep
      go none e = (r, v)
      go (some t) e = (next-InRange s order asleep (some t) v e, v)

  pub start_keeps : InRange s → InRange (run start s) × IsValid (run start s) order asleep
  start_keeps r = elim (Option-cases (scheduler_get_next s)) [
    | inl e ↦
        subst (λ (z : Sched). InRange z × IsValid z order asleep) (sym (start-none s e)) (r, v)
    | inr (t, e) ↦
        let (p, hp, here) = next-queue t e in
        let chosen : Sched = choose_first (some t) s in
        let in_chosen : InRange chosen =
          next-InRange s order asleep (some t) v
            (subst (IsNext order) e (scheduler_get_next-IsNext s order asleep v)) in
        subst (λ (z : Sched). InRange z × IsValid z order asleep) (sym (start-some s t e))
          (
            update_tcb-InRange chosen t launched_tcb (in_chosen t refl) in_chosen,
            launch-IsValid chosen order asleep v t p hp here,
          )
  ]

-- The calls of `scheduler_start` and `scheduler_set_priority` are their steps, one after another.
pub start-steps :
    (s : Sched) (t : ℕ)
    → scheduler_get_next s ≡ some t
    → run start s ≡ run (launch t) (run choose s)
unfolding run
start-steps s t e =
    start-some s t e ∙ sym (ap (λ (o : Ptr). update_tcb t launched_tcb (choose_first o s)) e)

pub set_priority-steps :
    (s : Sched) (t n : ℕ)
    → n < max_priority
    → is_runnable (s.tasks t) ≡ true
    → run (set_priority t n) s ≡ run (add t) (run (rank t n) (run (remove t) s))
unfolding run scheduler_set_priority
set_priority-steps s t n small e =
    let pass : leb max_priority n ≡ false = ground arith in rw (pass, e) refl

pub set_priority-steps_loose :
    (s : Sched) (t n : ℕ)
    → n < max_priority
    → is_runnable (s.tasks t) ≡ false
    → run (set_priority t n) s ≡ run (rank t n) s
unfolding run scheduler_set_priority
set_priority-steps_loose s t n small e =
    let pass : leb max_priority n ≡ false = ground arith in rw (pass, e) refl
