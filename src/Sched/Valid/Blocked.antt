-- ===== src/Sched/Valid/Blocked.antt =====
-- `blocked_insert` puts a task in front of the blocked list, and `blocked_remove` takes one off it; the
-- other lists stay as they are.
use helix_rt.Prelude.{
  ℕ, Ptr, ◌≡◌, ◌≢◌, refl, sym, subst, ◌∙◌, inl, inr, List, [], ◌∷◌, true, false, none, some, has,
  arith, Bool-cases, ◌==◌, if◌then◌else◌, same_ptr, Distinct, remove, Distinct-remove,
  has_of_has-remove, has-remove_self,
}
use helix_rt.Task.{Tcbs}
use helix_rt.Sched.{Sched}
use helix_rt.Sched.Links.{blocked_insert, unlink, blocked_remove}
use helix_rt.Sched.Chain.{Chain, next-mem, next-ne, prev-mem, prev-ne}
use helix_rt.Sched.Chain.Append.{prepend, Chain-prepend}
use helix_rt.Sched.Valid.{IsBlockedAt, IsValid, IsLoose, Waiting}
use helix_rt.Sched.Valid.Frame.{
  SameAt, Queue-frame, blocked_apart, ready-not-waiting, waiting-not-ready,
}
use helix_rt.Sched.Chain.Unlink.{Chain-unlink, unlink-fields, SameLinks-unlink, head_without}

SameAt-prepend :
    (tasks : Tcbs) (head : Ptr) (t a : ℕ)
    → head ≢ some a
    → a ≢ t
    → SameAt tasks (prepend t head tasks) a
SameAt-prepend tasks head t a p q = record {
  links = (ground arith, ground arith);
  priority = ground arith;
  state = ground arith;
}

prepend-fields :
    (tasks : Tcbs) (head : Ptr) (t a : ℕ)
    → ((prepend t head tasks a).priority ≡ (tasks a).priority)
      × ((prepend t head tasks a).state ≡ (tasks a).state)
prepend-fields tasks head t a = (ground arith, ground arith)

head-mem :
    (t : Tcbs) (xs : List ℕ) (head : Ptr) (a : ℕ)
    → Chain t none xs head
    → head ≡ some a
    → has a xs ≡ true
head-mem t [] head a c e = absurd (ground arith)
head-mem t (x ∷ xs) head a c e = ground arith

-- `blocked_insert` puts a blocked task that is on no list in front of the blocked list.
pub blocked_insert-IsValid :
    (s : Sched) (queues : ℕ → List ℕ) (waiting : List ℕ) (t : ℕ)
    → IsValid s queues waiting
    → IsBlockedAt s.tasks t
    → IsLoose t queues waiting
    → IsValid (blocked_insert t s) queues (t ∷ waiting)
unfolding blocked_insert
blocked_insert-IsValid s queues waiting t v here loose = record {
  bitmap_word = v.bitmap_word;
  queue = λ i hi.
      Queue-frame s.tasks u s.priority_bitmap s.priority_bitmap (s.ready_list i) i (queues i)
        (λ a h.
          SameAt-prepend s.tasks s.blocked_head t a
            (λ e.
              blocked_apart s.tasks i a a ((v.queue i hi).members a h)
                (v.wait_list.members a
                  (head-mem s.tasks waiting s.blocked_head a v.wait_list.chain e))
                refl)
            (λ k. ground (arith, loose.0 i hi)))
        refl (v.queue i hi);
  wait_list = record {
    chain =
        Chain-prepend s.tasks t waiting s.blocked_head v.wait_list.chain v.wait_list.distinct
          loose.1;
    distinct = (loose.1, v.wait_list.distinct);
    members = λ a h. elim (Bool-cases (has a waiting)) [
      | inl old ↦ moved a (v.wait_list.members a old)
      | inr new ↦
          let e : t ≡ a = ground arith in subst (λ (b : ℕ). IsBlockedAt u b) e (moved t here)
    ];
  };
}
  where
    u : Tcbs
    u = prepend t s.blocked_head s.tasks

    moved : (a : ℕ) → IsBlockedAt s.tasks a → IsBlockedAt u a
    moved a r = record {
      priority = rw ((prepend-fields s.tasks s.blocked_head t a).0) (r.priority);
      state = (prepend-fields s.tasks s.blocked_head t a).1 ∙ r.state;
      address = r.address;
    }

-- A whole list, as seen by unlinking one of its members.
module _ (tasks : Tcbs) (t : ℕ) (xs : List ℕ) (head : Ptr) (c : Chain tasks none xs head)
    (d : Distinct xs) (here : has t xs ≡ true) where
  pub next_other : (tasks t).next ≢ some t
  next_other = next-ne tasks xs none head t c d here

  pub prev_other : (tasks t).prev ≢ some t
  prev_other = prev-ne tasks xs none head t c d (cc) here

  -- The `prev` of a member is a member.
  pub prev-mem_of_mem : (a : ℕ) → (tasks t).prev ≡ some a → has a xs ≡ true
  prev-mem_of_mem a e = go xs c here
    where
      go : (ys : List ℕ) → Chain tasks none ys head → has t ys ≡ true → has a ys ≡ true
      go [] c h = absurd (ground arith)
      go (y ∷ ys) c h = elim (Bool-cases (t == y)) [
        | inl q ↦ ground arith
        | inr q ↦ let (z, f, m) = prev-mem tasks y ys none head t c (ground arith) in ground arith
      ]

  -- A block that is not on the list keeps all that the invariant reads.
  pub SameAt-unlink : (a : ℕ) → has a xs ≡ false → SameAt tasks (unlink t tasks) a
  SameAt-unlink a out = record {
    links =
        SameLinks-unlink tasks t a next_other prev_other (λ e. ground arith)
          (λ e. ground (arith, next-mem tasks xs none head t a c here e))
          (λ e. ground (arith, prev-mem_of_mem a e));
    priority = (unlink-fields tasks t a).0;
    state = (unlink-fields tasks t a).1;
  }

  -- The two ways in which the code tests that `t` is the head agree.
  pub null_prev-eq-head :
      (elim ((tasks t).prev) [
        | some p ↦ head
        | none ↦ if same_ptr head (some t) then (tasks t).next else head
      ])
      ≡ head_without tasks t head
  null_prev-eq-head = ground (arith, head_prev xs c)
    where
      head_prev :
          (ys : List ℕ)
          → Chain tasks none ys head
          → same_ptr head (some t) ≡ true
          → (tasks t).prev ≡ none
      head_prev [] c e = ground arith
      head_prev (y ∷ ys) c e = ground arith

module _ (s : Sched) (queues : ℕ → List ℕ) (waiting : List ℕ) (v : IsValid s queues waiting)
    (t : ℕ) where
  -- `blocked_remove` removes a blocked task from the blocked list and from nothing else.
  pub blocked_remove-IsValid :
      has t waiting ≡ true → IsValid (blocked_remove t s) queues (remove t waiting)
  unfolding blocked_remove
  blocked_remove-IsValid here = record {
    bitmap_word = v.bitmap_word;
    queue = λ i hi.
        Queue-frame s.tasks (unlink t s.tasks) s.priority_bitmap s.priority_bitmap (s.ready_list i)
          i (queues i)
          (λ a h.
            SameAt-unlink s.tasks t waiting s.blocked_head w.chain w.distinct here a
              (ready-not-waiting s queues waiting v a i hi h))
          refl (v.queue i hi);
    wait_list = record {
      chain =
          subst (Chain (unlink t s.tasks) none (remove t waiting))
            (sym (null_prev-eq-head s.tasks t waiting s.blocked_head w.chain w.distinct here))
            (Chain-unlink s.tasks t waiting none s.blocked_head w.chain w.distinct (λ a. cc) here);
      distinct = Distinct-remove t waiting w.distinct;
      members = λ a h. still a (w.members a (has_of_has-remove a t waiting h));
    };
  }
    where
      w : Waiting s.tasks s.blocked_head waiting
      w = v.wait_list

      still : (a : ℕ) → IsBlockedAt s.tasks a → IsBlockedAt (unlink t s.tasks) a
      still a r = record {
        priority = rw ((unlink-fields s.tasks t a).0) (r.priority);
        state = (unlink-fields s.tasks t a).1 ∙ r.state;
        address = r.address;
      }

  pub blocked_remove-IsLoose : has t waiting ≡ true → IsLoose t queues (remove t waiting)
  blocked_remove-IsLoose here = (
    λ p hp. waiting-not-ready s queues waiting v t p hp here,
    has-remove_self t waiting v.wait_list.distinct,
  )
