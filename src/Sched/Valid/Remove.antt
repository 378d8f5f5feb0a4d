-- ===== src/Sched/Valid/Remove.antt =====
-- `scheduler_remove_task` takes a task off the ready list of its priority; the task is then on no list,
-- and the other lists stay as they are.
use helix_rt.Prelude.{
  ℕ, ◌<◌, Ptr, ◌≡◌, ◌≢◌, refl, sym, ap, subst, ◌∙◌, inl, inr, List, [], ◌∷◌, true, false, none,
  some, has, is_null, if◌then◌else◌, arith, Bool-cases, ◌==◌, ==_self, same_ptr, remove,
  Distinct-remove, has_of_has-remove, has-remove_self,
}
use helix_rt.Prelude.Bits.{bit}
use helix_rt.Config.{word, max_priority}
use helix_rt.Task.{Tcbs, put}
use helix_rt.Bitmap.{bitmap_clear}
use helix_rt.Bitmap.Laws.{bit-bitmap_clear, bitmap_clear-lt}
use helix_rt.Sched.{Sched}
use helix_rt.Sched.Links.{unlink, ready_remove}
use helix_rt.Sched.Chain.{Chain}
use helix_rt.Sched.Chain.Unlink.{Chain-unlink, unlink-fields, head_without}
use helix_rt.Sched.Valid.{IsReadyAt, Queue, Waiting, Lists, IsValid, IsLoose}
use helix_rt.Sched.Valid.Frame.{
  Queue-frame, Waiting-frame, ready-not-mem, ready-not-waiting, waiting-not-ready,
}
use helix_rt.Sched.Valid.Blocked.{SameAt-unlink}

abbrev pub remove_queue : (ℕ → List ℕ) → ℕ → ℕ → ℕ → List ℕ
remove_queue queues p t = put queues p (remove t (queues p))

-- The list heads that `scheduler_remove_task` leaves.
abbrev pub heads_without : Tcbs → (ℕ → Ptr) → ℕ → ℕ → ℕ → Ptr
heads_without tasks heads t p =
    if same_ptr (heads p) (some t) then put heads p (tasks t).next else heads

heads_without-at :
    (tasks : Tcbs) (heads : ℕ → Ptr) (t p i : ℕ)
    → heads_without tasks heads t p i ≡ (if i == p then head_without tasks t (heads p) else heads i)
heads_without-at tasks heads t p i = elim (Bool-cases (i == p)) [
  | inl e ↦
      let f : i ≡ p = ground arith in
      elim (Bool-cases (same_ptr (heads p) (some t))) [
        | inl g ↦ rw (g, e)
        | inr g ↦ rw (g, e) (ap heads f)
      ]
  | inr e ↦ elim (Bool-cases (same_ptr (heads p) (some t))) [
    | inl g ↦ rw (g, e)
    | inr g ↦ rw (g, e)
  ]
]

-- The bitmap that it leaves.
abbrev pub bitmap_without : ℕ → ℕ → Ptr → ℕ
bitmap_without m p head = if is_null head then bitmap_clear m p else m

module _ (m p : ℕ) (head : Ptr) (small : p < max_priority) where
  bitmap_without-lt : m < word → bitmap_without m p head < word
  bitmap_without-lt h = ground (arith, bitmap_clear-lt m p h)

  bit-bitmap_without :
      (i : ℕ) → i < max_priority → (i == p) ≡ false → bit (bitmap_without m p head) i ≡ bit m i
  bit-bitmap_without i hi ne = ground (arith, bit-bitmap_clear m p i small hi)

  bit-bitmap_without_self :
      bit m p ≡ 1 → bit (bitmap_without m p head) p ≡ (if is_null head then 0 else 1)
  bit-bitmap_without_self on = ground (arith, bit-bitmap_clear m p p small small)

module _ (s : Sched) (queues : ℕ → List ℕ) (waiting : List ℕ) (v : IsValid s queues waiting)
    (t p : ℕ) (small : p < max_priority) (here : has t (queues p) ≡ true) where
  q : Queue s.tasks s.priority_bitmap (s.ready_list p) p (queues p)
  q = v.queue p small

  left : Ptr
  left = head_without s.tasks t (s.ready_list p)

  u : Tcbs
  u = unlink t s.tasks

  was_marked : bit s.priority_bitmap p ≡ 1
  was_marked = go (queues p) q.chain here ∙ refl
    where
      go :
          (xs : List ℕ)
          → Chain s.tasks none xs (s.ready_list p)
          → has t xs ≡ true
          → bit s.priority_bitmap p ≡ 1
      go [] c h = absurd (ground arith)
      go (x ∷ xs) c h = q.marked ∙ (rw (c.0))

  IsReadyAt-unlink : (i a : ℕ) → IsReadyAt s.tasks i a → IsReadyAt u i a
  unfolding u
  IsReadyAt-unlink i a r = record {
    priority = (unlink-fields s.tasks t a).0 ∙ r.priority;
    runnable = rw ((unlink-fields s.tasks t a).1) (r.runnable);
    address = r.address;
  }

  -- The queue that the task leaves.
  Queue-unlink : Queue u (bitmap_without s.priority_bitmap p left) left p (remove t (queues p))
  unfolding u left
  Queue-unlink = record {
    chain =
        Chain-unlink s.tasks t (queues p) none (s.ready_list p) q.chain q.distinct (λ a. cc) here;
    distinct = Distinct-remove t (queues p) q.distinct;
    members = λ a h. IsReadyAt-unlink p a (q.members a (has_of_has-remove a t (queues p) h));
    marked = bit-bitmap_without_self s.priority_bitmap p left small was_marked;
  }

  -- Any other queue.
  Queue-other :
      (i : ℕ)
      → i < max_priority
      → (i == p) ≡ false
      → Queue u (bitmap_without s.priority_bitmap p left) (s.ready_list i) i (queues i)
  unfolding u left
  Queue-other i hi ne =
      let apart : i ≢ p = ground arith in
      Queue-frame s.tasks u s.priority_bitmap (bitmap_without s.priority_bitmap p left)
        (s.ready_list i) i (queues i)
        (λ a h.
          SameAt-unlink s.tasks t (queues p) (s.ready_list p) q.chain q.distinct here a
            (ready-not-mem s queues waiting v a i p hi small apart h))
        (bit-bitmap_without s.priority_bitmap p left small i hi ne) (v.queue i hi)

  Waiting-unlink : Waiting u s.blocked_head waiting
  unfolding u
  Waiting-unlink =
      Waiting-frame s.tasks u s.blocked_head waiting
        (λ a h.
          SameAt-unlink s.tasks t (queues p) (s.ready_list p) q.chain q.distinct here a
            (waiting-not-ready s queues waiting v a p small h))
        v.wait_list

  pub ready_remove-IsLoose : IsLoose t (remove_queue queues p t) waiting
  ready_remove-IsLoose = (
    λ i hi. elim (Bool-cases (i == p)) [
      | inl e ↦ rw e (has-remove_self t (queues p) q.distinct)
      | inr e ↦
          let ne : p ≢ i = ground arith in
          rw e (ready-not-mem s queues waiting v t p i small hi ne here)
    ],
    ready-not-waiting s queues waiting v t p small here,
  )

  heads_without_self : heads_without s.tasks s.ready_list t p p ≡ left
  unfolding left
  heads_without_self = rw (heads_without-at s.tasks s.ready_list t p p, ==_self p)

  removed :
      Lists u
        (bitmap_without s.priority_bitmap p (heads_without s.tasks s.ready_list t p p))
        (heads_without s.tasks s.ready_list t p)
        s.blocked_head
        (remove_queue queues p t)
        waiting
  unfolding left
  removed = rw (heads_without_self) (record {
    bitmap_word = bitmap_without-lt s.priority_bitmap p left small v.bitmap_word;
    queue = λ i hi. rw (heads_without-at s.tasks s.ready_list t p i) (elim (Bool-cases (i == p)) [
      | inl e ↦
          let f : p ≡ i = ground arith in
          rw e (
            subst
              (λ j. Queue u (bitmap_without s.priority_bitmap p left) left j (remove t (queues p)))
              f Queue-unlink)
      | inr e ↦ rw e (Queue-other i hi e)
    ]);
    wait_list = Waiting-unlink;
  })

  -- `scheduler_remove_task` takes a ready task off the list of its priority, and off no other.
  pub ready_remove-IsValid : IsValid (ready_remove t s) (remove_queue queues p t) waiting
  unfolding ready_remove u
  ready_remove-IsValid =
      subst
        (λ (k : ℕ).
          Lists u (bitmap_without s.priority_bitmap k (heads_without s.tasks s.ready_list t k k))
            (heads_without s.tasks s.ready_list t k) s.blocked_head (remove_queue queues p t)
            waiting)
        (sym (q.members t here).priority) removed
