-- ===== src/Sched/Block/Best.antt =====
-- `scheduler_unblock_one` wakes the highest-priority waiter of an object, and says whether there was
-- one.
use helix_rt.Prelude.{
  ℕ, zero, suc, ◌≤◌, Ptr, ◌≡◌, refl, sym, subst, ◌∙◌, inl, inr, List, [], ◌∷◌, Bool, true, false,
  none, some, has, if◌then◌else◌, arith, Bool-cases, ◌==◌, ◌&&◌, ltb, remove, length, length-le,
  ltb→lt, not_ltb→le,
}
use mathlib.Core.Bool.{false≢true}
use helix_rt.Config.{word}
use helix_rt.Task.{Tcbs, Code, BlockReason}
use helix_rt.Sched.{Sched}
use helix_rt.Sched.Block.{
  release, waits_for, improves, best_waiter, wake_best, scheduler_unblock_one,
}
use helix_rt.Sched.Chain.{Chain}
use helix_rt.Sched.Valid.{IsValid}
use helix_rt.Sched.Valid.Insert.{append_queue}
use helix_rt.Sched.Block.Laws.{release-IsValid}
use helix_rt.Sched.Ready.Laws.{preempt_for-IsValid}

-- No task of `xs` that waits for the object has a higher priority than `best`, if that is a task;
-- there is none at all if it is NULL.
abbrev pub Bounds : Tcbs → BlockReason → Ptr → Ptr → ℕ → Type 0
Bounds tasks reason object none a = waits_for reason object (tasks a) ≡ false
Bounds tasks reason object (some b) a =
    waits_for reason object (tasks a) ≡ true → (tasks b).priority ≤ (tasks a).priority

-- `best` is a waiter that stands on `xs`.
abbrev pub IsWaiterOf : Tcbs → BlockReason → Ptr → List ℕ → Ptr → Type 0
IsWaiterOf tasks reason object xs none = Unit {0}
IsWaiterOf tasks reason object xs (some b) =
    (has b xs ≡ true) × (waits_for reason object (tasks b) ≡ true)

module _ (reason : BlockReason) (object : Ptr) (s : Sched) where
  -- The choice after looking at one more task.
  abbrev better : ℕ → Ptr → Ptr
  better t best = if waits_for reason object (s.tasks t) && improves s t best then some t else best

  -- The loop, as a fold over the list.
  abbrev best_of : List ℕ → Ptr → Ptr
  best_of [] best = best
  best_of (x ∷ xs) best = best_of xs (better x best)

  best_waiter-eq-best_of :
      (fuel : ℕ) (xs : List ℕ) (prev iter best : Ptr)
      → length xs ≤ fuel
      → Chain s.tasks prev xs iter
      → best_waiter fuel reason object s iter best ≡ best_of xs best
  unfolding best_waiter
  best_waiter-eq-best_of zero [] prev iter best h c = refl
  best_waiter-eq-best_of zero (x ∷ xs) prev iter best h c = absurd (omega arith)
  best_waiter-eq-best_of (suc fuel) [] prev iter best h c = rw (c, best_waiter)
  best_waiter-eq-best_of (suc fuel) (x ∷ xs) prev iter best h (e, _, c) =
      rw (e, best_waiter)
        (best_waiter-eq-best_of fuel xs (some x) (s.tasks x).next (better x best) (omega arith) c)

  better-Bounds :
      (t a : ℕ) (best : Ptr)
      → Bounds s.tasks reason object best a
      → Bounds s.tasks reason object (better t best) a
  better-Bounds t a none h = elim (Bool-cases (waits_for reason object (s.tasks t))) [
    | inl e ↦ rw e (λ f. absurd (false≢true (sym h ∙ f)))
    | inr e ↦ rw e h
  ]
  better-Bounds t a (some b) h = elim (Bool-cases (waits_for reason object (s.tasks t))) [
    | inl e ↦ elim (Bool-cases (ltb (s.tasks t).priority (s.tasks b).priority)) [
      | inl l ↦ rw (e, l) (λ f. omega (arith, h f, ltb→lt _ _ l))
      | inr l ↦ rw (e, l) h
    ]
    | inr e ↦ rw e h
  ]

  better-Bounds_self : (t : ℕ) (best : Ptr) → Bounds s.tasks reason object (better t best) t
  better-Bounds_self t none = elim (Bool-cases (waits_for reason object (s.tasks t))) [
    | inl e ↦ rw e (λ f. omega arith)
    | inr e ↦ rw e e
  ]
  better-Bounds_self t (some b) = elim (Bool-cases (waits_for reason object (s.tasks t))) [
    | inl e ↦ elim (Bool-cases (ltb (s.tasks t).priority (s.tasks b).priority)) [
      | inl l ↦ rw (e, l) (λ f. omega arith)
      | inr l ↦ rw (e, l) (λ f. not_ltb→le _ _ l)
    ]
    | inr e ↦ rw e (λ f. absurd (false≢true (sym e ∙ f)))
  ]

  best_of-keeps :
      (xs : List ℕ) (a : ℕ) (best : Ptr)
      → Bounds s.tasks reason object best a
      → Bounds s.tasks reason object (best_of xs best) a
  best_of-keeps [] a best h = h
  best_of-keeps (x ∷ xs) a best h = best_of-keeps xs a (better x best) (better-Bounds x a best h)

  best_of-Bounds :
      (xs : List ℕ) (a : ℕ) (best : Ptr)
      → has a xs ≡ true
      → Bounds s.tasks reason object (best_of xs best) a
  best_of-Bounds [] a best h = absurd (ground arith)
  best_of-Bounds (x ∷ xs) a best h = elim (Bool-cases (a == x)) [
    | inl q ↦
        let e : x ≡ a = ground arith in
        best_of-keeps xs a (better x best) (
          subst (λ (b : ℕ). Bounds s.tasks reason object (better x best) b) e
            (better-Bounds_self x best))
    | inr q ↦ best_of-Bounds xs a (better x best) (ground arith)
  ]

  better-IsWaiterOf :
      (all : List ℕ) (x : ℕ) (best : Ptr)
      → has x all ≡ true
      → IsWaiterOf s.tasks reason object all best
      → IsWaiterOf s.tasks reason object all (better x best)
  better-IsWaiterOf all x best on w = elim (Bool-cases (waits_for reason object (s.tasks x))) [
    | inl e ↦ elim (Bool-cases (improves s x best)) [
      | inl l ↦ rw (e, l) (on, e)
      | inr l ↦ rw (e, l) w
    ]
    | inr e ↦ rw e w
  ]

  best_of-IsWaiterOf :
      (all xs : List ℕ) (best : Ptr)
      → ((a : ℕ) → has a xs ≡ true → has a all ≡ true)
      → IsWaiterOf s.tasks reason object all best
      → IsWaiterOf s.tasks reason object all (best_of xs best)
  best_of-IsWaiterOf all [] best sub w = w
  best_of-IsWaiterOf all (x ∷ xs) best sub w =
      best_of-IsWaiterOf all xs (better x best) (λ a h. sub a (ground (arith, h)))
        (better-IsWaiterOf all x best (sub x (ground arith)) w)

-- The outcome of `scheduler_unblock_one` on a valid scheduler.
pub data Woke (s : Sched) (queues : ℕ → List ℕ) (waiting : List ℕ) (reason : BlockReason)
    (object : Ptr) : Bool × Sched → Type 0 where
  nobody :
      {s' : Sched}
      → ((a : ℕ) → has a waiting ≡ true → waits_for reason object (s.tasks a) ≡ false)
      → IsValid s' queues waiting
      → Woke s queues waiting reason object (false, s')
  somebody :
      {s' : Sched} (b : ℕ)
      → has b waiting ≡ true
      → waits_for reason object (s.tasks b) ≡ true
      → ((a : ℕ)
          → has a waiting ≡ true
          → waits_for reason object (s.tasks a) ≡ true
          → (s.tasks b).priority ≤ (s.tasks a).priority)
      → IsValid s' (append_queue queues (s.tasks b).priority b) (remove b waiting)
      → Woke s queues waiting reason object (true, s')

module _ (s : Sched) (queues : ℕ → List ℕ) (waiting : List ℕ) (v : IsValid s queues waiting)
    (reason : BlockReason) (object : Ptr) (result : Code) where
  quiet : Sched
  quiet = record s { primask = 1 }

  found :
      best_waiter word reason object quiet s.blocked_head none
      ≡ best_of reason object s waiting none
  unfolding quiet
  found =
      best_waiter-eq-best_of reason object quiet word waiting none s.blocked_head none
        (length-le word waiting v.wait_list.distinct λ a h. (v.wait_list.members a h).address)
        v.wait_list.chain

  -- The wake-up of a given choice.
  wake_best-Woke :
      (best : Ptr)
      → best_of reason object s waiting none ≡ best
      → let (b, s2) = wake_best best result quiet in
        Woke s queues waiting reason object (b, record s2 { primask = s.primask })
  unfolding wake_best quiet
  wake_best-Woke none e =
      nobody
        (λ a h.
          subst (λ (o : Ptr). Bounds s.tasks reason object o a) e
            (best_of-Bounds reason object s waiting a none h))
        v
  wake_best-Woke (some b) e =
      let waiter : IsWaiterOf s.tasks reason object waiting (some b) =
        subst (λ (o : Ptr). IsWaiterOf s.tasks reason object waiting o) e
          (best_of-IsWaiterOf reason object s waiting waiting none (λ a h. h) tt) in
      let p : ℕ = (s.tasks b).priority in
      somebody b waiter.0 waiter.1
        (λ a h.
          subst (λ (o : Ptr). Bounds s.tasks reason object o a) e
            (best_of-Bounds reason object s waiting a none h))
        (preempt_for-IsValid (release b result quiet) (append_queue queues p b) (remove b waiting) b
          (release-IsValid quiet queues waiting b p v waiter.0 refl result))

  -- On a valid scheduler `scheduler_unblock_one` returns false and moves nobody where no task on the
  -- blocked list waits for the object; else it returns true and moves one of those that do, of the
  -- highest priority among them, to the end of its ready list. The lists stay valid.
  pub scheduler_unblock_one-Woke :
      Woke s queues waiting reason object (scheduler_unblock_one reason object result s)
  unfolding scheduler_unblock_one quiet
  scheduler_unblock_one-Woke =
      subst
        (λ (o : Ptr).
          let (b, s2) = wake_best o result quiet in
          Woke s queues waiting reason object (b, record s2 { primask = s.primask }))
        (sym found) (wake_best-Woke (best_of reason object s waiting none) refl)
