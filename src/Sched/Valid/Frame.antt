-- ===== src/Sched/Valid/Frame.antt =====
-- Changes of the store that leave the lists alone, and facts about who is on which list.
use helix_rt.Prelude.{
  ℕ, ◌<◌, Ptr, ◌≡◌, ◌≢◌, refl, sym, ap, ◌∙◌, inl, inr, List, true, false, none, has, arith,
  Bool-cases,
}
use helix_rt.Prelude.Bits.{bit}
use helix_rt.Config.{max_priority}
use helix_rt.Task.{Tcb, Tcbs, blocked, put}
use helix_rt.Sched.{Sched, update_tcb}
use helix_rt.Sched.Chain.{SameLinks, Chain-frame}
use helix_rt.Sched.Valid.{IsReadyAt, IsBlockedAt, Queue, Waiting, IsValid, IsLoose}

-- The fields of `a` that the invariant reads are the same in both stores.
pub record SameAt (t u : Tcbs) (a : ℕ) : Type 0 where
  pub links : SameLinks t u a
  pub priority : (u a).priority ≡ (t a).priority
  pub state : (u a).state ≡ (t a).state

pub SameAt-put : (t : Tcbs) (x a : ℕ) (b : Tcb) → a ≢ x → SameAt t (put t x b) a
SameAt-put t x a b ne = record {
  links = (ground arith, ground arith);
  priority = ground arith;
  state = ground arith;
}

pub IsReadyAt-frame : (t u : Tcbs) (p a : ℕ) → SameAt t u a → IsReadyAt t p a → IsReadyAt u p a
IsReadyAt-frame t u p a same r = record {
  priority = same.priority ∙ r.priority;
  runnable = rw (same.state) (r.runnable);
  address = r.address;
}

pub IsBlockedAt-frame : (t u : Tcbs) (a : ℕ) → SameAt t u a → IsBlockedAt t a → IsBlockedAt u a
IsBlockedAt-frame t u a same r = record {
  priority = rw (same.priority) (r.priority);
  state = same.state ∙ r.state;
  address = r.address;
}

pub Queue-frame :
    (t u : Tcbs) (m n : ℕ) (head : Ptr) (p : ℕ) (xs : List ℕ)
    → ((a : ℕ) → has a xs ≡ true → SameAt t u a)
    → bit n p ≡ bit m p
    → Queue t m head p xs
    → Queue u n head p xs
Queue-frame t u m n head p xs same e q = record {
  chain = Chain-frame t u xs none head (λ a h. (same a h).links) q.chain;
  distinct = q.distinct;
  members = λ a h. IsReadyAt-frame t u p a (same a h) (q.members a h);
  marked = e ∙ q.marked;
}

pub Waiting-frame :
    (t u : Tcbs) (head : Ptr) (xs : List ℕ)
    → ((a : ℕ) → has a xs ≡ true → SameAt t u a)
    → Waiting t head xs
    → Waiting u head xs
Waiting-frame t u head xs same w = record {
  chain = Chain-frame t u xs none head (λ a h. (same a h).links) w.chain;
  distinct = w.distinct;
  members = λ a h. IsBlockedAt-frame t u a (same a h) (w.members a h);
}

-- A member of one ready list is on no other, and a blocked task is on none.
pub ready_apart : (t : Tcbs) (p r a b : ℕ) → IsReadyAt t p a → IsReadyAt t r b → p ≢ r → a ≢ b
ready_apart t p r a b x y ne e = ne (sym x.priority ∙ ap (λ (c : ℕ). (t c).priority) e ∙ y.priority)

pub blocked_apart : (t : Tcbs) (p a b : ℕ) → IsReadyAt t p a → IsBlockedAt t b → a ≢ b
blocked_apart t p a b x y e =
    let s : (t a).state ≡ blocked = ap (λ (c : ℕ). (t c).state) e ∙ y.state in
    let r : false ≡ true = rw s at (x.runnable) in cc

module _ (s : Sched) (queues : ℕ → List ℕ) (waiting : List ℕ) (v : IsValid s queues waiting)
    (t : ℕ) where
  -- A task on a ready list is on that of its priority only, and not blocked.
  pub ready-not-mem :
      (p r : ℕ)
      → p < max_priority
      → r < max_priority
      → p ≢ r
      → has t (queues p) ≡ true
      → has t (queues r) ≡ false
  ready-not-mem p r hp hr ne h = elim (Bool-cases (has t (queues r))) [
    | inl k ↦ absurd (
        ready_apart s.tasks p r t t ((v.queue p hp).members t h) ((v.queue r hr).members t k) ne
          refl)
    | inr k ↦ k
  ]

  pub ready-not-waiting :
      (p : ℕ) → p < max_priority → has t (queues p) ≡ true → has t waiting ≡ false
  ready-not-waiting p hp h = elim (Bool-cases (has t waiting)) [
    | inl k ↦
        absurd
          (blocked_apart s.tasks p t t ((v.queue p hp).members t h) (v.wait_list.members t k) refl)
    | inr k ↦ k
  ]

  pub waiting-not-ready :
      (p : ℕ) → p < max_priority → has t waiting ≡ true → has t (queues p) ≡ false
  waiting-not-ready p hp h = elim (Bool-cases (has t (queues p))) [
    | inl k ↦
        absurd
          (blocked_apart s.tasks p t t ((v.queue p hp).members t k) (v.wait_list.members t h) refl)
    | inr k ↦ k
  ]

  -- Any assignment to a block that is on no list keeps the lists.
  pub update_loose-IsValid :
      (f : Tcb → Tcb) → IsLoose t queues waiting → IsValid (update_tcb t f s) queues waiting
  update_loose-IsValid f (no_queue, no_wait) = record {
    bitmap_word = v.bitmap_word;
    queue = λ p hp.
        Queue-frame s.tasks (put s.tasks t (f (s.tasks t))) s.priority_bitmap s.priority_bitmap
          (s.ready_list p) p (queues p)
          (λ a h. SameAt-put s.tasks t a _ (λ e. ground (arith, no_queue p hp))) refl
          (v.queue p hp);
    wait_list =
        Waiting-frame s.tasks (put s.tasks t (f (s.tasks t))) s.blocked_head waiting
          (λ a h. SameAt-put s.tasks t a _ (λ e. ground arith)) v.wait_list;
  }

  -- So does another priority for a blocked task.
  pub reprioritise_waiting-IsValid :
      (n : ℕ)
      → has t waiting ≡ true
      → n < max_priority
      → IsValid (update_tcb t (λ b. record b { priority = n }) s) queues waiting
  reprioritise_waiting-IsValid n here small = record {
    bitmap_word = v.bitmap_word;
    queue = λ p hp.
        Queue-frame s.tasks changed s.priority_bitmap s.priority_bitmap (s.ready_list p) p
          (queues p)
          (λ a h.
            SameAt-put s.tasks t a (record (s.tasks t) { priority = n })
              (λ e. ground (arith, waiting-not-ready p hp here)))
          refl (v.queue p hp);
    wait_list = record {
      chain =
          Chain-frame s.tasks changed waiting none s.blocked_head
            (λ a h. (ground arith, ground arith)) v.wait_list.chain;
      distinct = v.wait_list.distinct;
      members = λ a h. blocked_still a (v.wait_list.members a h);
    };
  }
    where
      changed : Tcbs
      changed = put s.tasks t (record (s.tasks t) { priority = n })

      blocked_still : (a : ℕ) → IsBlockedAt s.tasks a → IsBlockedAt changed a
      blocked_still a r = record {
        priority = ground (arith, r.priority);
        state = ground (arith, r.state);
        address = r.address;
      }
