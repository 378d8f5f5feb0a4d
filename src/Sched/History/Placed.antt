-- ===== src/Sched/History/Placed.antt =====
-- Lists whose members are where the abstract scheduler has them, and what the list operations do to
-- the places.
use helix_rt.Prelude.{
  ℕ, ◌+◌, ◌<◌, ◌≡◌, refl, sym, ap, ◌∙◌, inl, inr, List, [], ◌∷◌, Bool, true, false, not, ◌&&◌, ◌||◌,
  has, has-append, has-remove_ne, ◌==◌, eq_of_==, if◌then◌else◌, arith, Bool-cases,
}
use helix_rt.Config.{word, max_priority}
use helix_rt.Task.{Tcb, Tcbs, put}
use helix_rt.Sched.Valid.{IsLoose}
use helix_rt.Sched.Valid.Insert.{append_queue}
use helix_rt.Sched.Valid.Remove.{remove_queue}
use helix_rt.Sched.Walk.{chosen, others, append_all}
use helix_rt.Sched.History.{
  Place, Places, nowhere, waiting, ready_at, is_ready_at, is_waiting, is_placed, waken,
}

pub record Placed (queues : ℕ → List ℕ) (asleep : List ℕ) (f : Places) : Type 0 where
  pub on_queue : (p a : ℕ) → p < max_priority → has a (queues p) ≡ is_ready_at p (f a)
  pub on_wait : (a : ℕ) → has a asleep ≡ is_waiting (f a)
  pub range : (a p : ℕ) → f a ≡ ready_at p → p < max_priority
  pub fits : (a : ℕ) → is_placed (f a) ≡ true → a + 1 < word

pub Placed-nowhere : Placed (λ p. []) [] (λ a. nowhere)
Placed-nowhere = record {
  on_queue = λ p a hp. refl;
  on_wait = λ a. refl;
  range = λ a p e. absurd (ground arith);
  fits = λ a e. absurd (ground arith);
}

module _ (queues : ℕ → List ℕ) (asleep : List ℕ) (f : Places) (h : Placed queues asleep f) where
  -- Only the members of the lists count.
  pub Placed-order :
      (order : ℕ → List ℕ)
      → ((p a : ℕ) → has a (order p) ≡ has a (queues p))
      → Placed order asleep f
  Placed-order order same = record {
    on_queue = λ p a hp. same p a ∙ h.on_queue p a hp;
    on_wait = h.on_wait;
    range = h.range;
    fits = h.fits;
  }

  module _ (t : ℕ) where
    pub Placed-IsLoose : f t ≡ nowhere → IsLoose t queues asleep
    Placed-IsLoose e =
        (λ p hp. h.on_queue p t hp ∙ ap (is_ready_at p) e, h.on_wait t ∙ ap is_waiting e)

    pub has-asleep : f t ≡ waiting → has t asleep ≡ true
    has-asleep e = h.on_wait t ∙ ap is_waiting e

    pub has-queue : (p : ℕ) → f t ≡ ready_at p → has t (queues p) ≡ true
    has-queue p e = h.on_queue p t (h.range t p e) ∙ ap (is_ready_at p) e ∙ (ground arith)

  -- One task moves.
  pub Placed-put :
      (t : ℕ) (x : Place) (order : ℕ → List ℕ) (wait : List ℕ)
      → ((p : ℕ) → p < max_priority → has t (order p) ≡ is_ready_at p x)
      → has t wait ≡ is_waiting x
      → ((p : ℕ) → x ≡ ready_at p → p < max_priority)
      → ((p a : ℕ) → (a == t) ≡ false → has a (order p) ≡ has a (queues p))
      → ((a : ℕ) → (a == t) ≡ false → has a wait ≡ has a asleep)
      → (is_placed x ≡ true → t + 1 < word)
      → Placed order wait (put f t x)
  Placed-put t x order wait here here_wait small apart apart_wait fits = record {
    on_queue = λ p a hp. elim (Bool-cases (a == t)) [
      | inl e ↦ rw e (ap (λ (b : ℕ). has b (order p)) (eq_of_== a t e) ∙ here p hp)
      | inr e ↦ rw e (apart p a e ∙ h.on_queue p a hp)
    ];
    on_wait = λ a. elim (Bool-cases (a == t)) [
      | inl e ↦ rw e (ap (λ (b : ℕ). has b wait) (eq_of_== a t e) ∙ here_wait)
      | inr e ↦ rw e (apart_wait a e ∙ h.on_wait a)
    ];
    range = λ a p k. elim (Bool-cases (a == t)) [
      | inl e ↦ small p (rw e at k)
      | inr e ↦ h.range a p (rw e at k)
    ];
    fits = λ a k. elim (Bool-cases (a == t)) [
      | inl e ↦ rw (eq_of_== a t e) (fits (rw e at k))
      | inr e ↦ h.fits a (rw e at k)
    ];
  }

-- Membership in the changed lists.
module _ (queues : ℕ → List ℕ) (q t : ℕ) where
  pub has-append_queue :
      (p a : ℕ) → (a == t) ≡ false → has a (append_queue queues q t p) ≡ has a (queues p)
  has-append_queue p a ne = elim (Bool-cases (p == q)) [
    | inl e ↦ rw (e, eq_of_== p q e) (ground (arith, has-append a (queues q) (t ∷ [])))
    | inr e ↦ rw e refl
  ]

  pub has-append_queue_self :
      (p : ℕ) → has t (append_queue queues q t p) ≡ ((p == q) || has t (queues p))
  has-append_queue_self p = elim (Bool-cases (p == q)) [
    | inl e ↦ rw e (ground (arith, has-append t (queues q) (t ∷ [])))
    | inr e ↦ rw e refl
  ]

  pub has-remove_queue :
      (p a : ℕ) → (a == t) ≡ false → has a (remove_queue queues q t p) ≡ has a (queues p)
  has-remove_queue p a ne = elim (Bool-cases (p == q)) [
    | inl e ↦ rw (e, eq_of_== p q e) (has-remove_ne a t (queues q) ne)
    | inr e ↦ rw e refl
  ]

module _ (select : Tcb → Bool) (tasks : Tcbs) where
  pub has-chosen :
      (a : ℕ) (ts : List ℕ) → has a (chosen select tasks ts) ≡ (has a ts && select (tasks a))
  has-chosen a [] = refl
  has-chosen a (t ∷ ts) = elim (Bool-cases (a == t)) [
    | inl e ↦ ground (arith, has-chosen a ts, ap (λ (b : ℕ). select (tasks b)) (eq_of_== a t e))
    | inr e ↦ ground (arith, has-chosen a ts)
  ]

  pub has-others :
      (a : ℕ) (ts : List ℕ) → has a (others select tasks ts) ≡ (has a ts && not (select (tasks a)))
  has-others a [] = refl
  has-others a (t ∷ ts) = elim (Bool-cases (a == t)) [
    | inl e ↦ ground (arith, has-others a ts, ap (λ (b : ℕ). select (tasks b)) (eq_of_== a t e))
    | inr e ↦ ground (arith, has-others a ts)
  ]

pub has-append_all :
    (tasks : Tcbs) (ts : List ℕ) (queues : ℕ → List ℕ) (p a : ℕ)
    → has a (append_all tasks ts queues p)
      ≡ (has a (queues p) || (has a ts && (p == (tasks a).priority)))
has-append_all tasks [] queues p a = ground arith
has-append_all tasks (t ∷ ts) queues p a =
    has-append_all tasks ts (append_queue queues (tasks t).priority t) p a
    ∙ elim (Bool-cases (a == t)) [
      | inl e ↦
          let k : t ≡ a = sym (eq_of_== a t e) in
          ground (
            arith,
            ap (λ (b : ℕ). has b (append_queue queues (tasks t).priority t p)) k,
            ap (λ (b : ℕ). has b (queues p)) k,
            ap (λ (b : ℕ). (tasks b).priority) k,
            has-append_queue_self queues (tasks t).priority t p,
          )
      | inr e ↦ ground (arith, has-append_queue queues (tasks t).priority t p a e)
    ]

-- A place from the lists that the task is on.
woken-queue :
    (p prio : ℕ) (b m w : Bool) (x : Place)
    → m ≡ is_ready_at p x
    → w ≡ is_waiting x
    → (m || ((w && b) && (p == prio)))
      ≡ is_ready_at p (if is_waiting x && b then ready_at prio else x)
woken-queue p prio b m w nowhere e k = rw (e, k) refl
woken-queue p prio true m w waiting e k = rw (e, k) refl
woken-queue p prio false m w waiting e k = rw (e, k) refl
woken-queue p prio b m w (ready_at q) e k = rw (e, k) (ground arith)

woken-placed :
    (prio : ℕ) (b : Bool) (x : Place)
    → is_placed (if is_waiting x && b then ready_at prio else x) ≡ true
    → is_placed x ≡ true
woken-placed prio b waiting e = refl
woken-placed prio b nowhere e = e
woken-placed prio b (ready_at q) e = refl

woken-wait :
    (prio : ℕ) (b w : Bool) (x : Place)
    → w ≡ is_waiting x
    → (w && not b) ≡ is_waiting (if is_waiting x && b then ready_at prio else x)
woken-wait prio b w nowhere k = rw k refl
woken-wait prio true w waiting k = rw k refl
woken-wait prio false w waiting k = rw k refl
woken-wait prio b w (ready_at q) k = rw k refl

woken-range :
    (prio p : ℕ) (b : Bool) (x : Place)
    → (is_waiting x ≡ true → prio < max_priority)
    → ((q : ℕ) → x ≡ ready_at q → q < max_priority)
    → (if is_waiting x && b then ready_at prio else x) ≡ ready_at p
    → p < max_priority
woken-range prio p true waiting small range e = ground (arith, small refl)
woken-range prio p false waiting small range e = range p e
woken-range prio p b nowhere small range e = range p e
woken-range prio p b (ready_at q) small range e = range p e

module _ (queues : ℕ → List ℕ) (asleep : List ℕ) (f : Places) (h : Placed queues asleep f) where
  -- The waiting tasks that a test selects are appended to the ready lists of their priorities.
  pub Placed-waken :
      (select : Tcb → Bool) (tasks : Tcbs)
      → ((a : ℕ) → has a asleep ≡ true → (tasks a).priority < max_priority)
      → Placed
          (append_all tasks (chosen select tasks asleep) queues)
          (others select tasks asleep)
          (waken select tasks f)
  unfolding waken
  Placed-waken select tasks small = record {
    on_queue = λ p a hp.
        has-append_all tasks (chosen select tasks asleep) queues p a
        ∙ ap (λ (b : Bool). has a (queues p) || (b && (p == (tasks a).priority)))
            (has-chosen select tasks a asleep)
        ∙ woken-queue p (tasks a).priority (select (tasks a)) (has a (queues p)) (has a asleep)
            (f a) (h.on_queue p a hp) (h.on_wait a);
    on_wait = λ a.
        has-others select tasks a asleep
        ∙ woken-wait (tasks a).priority (select (tasks a)) (has a asleep) (f a) (h.on_wait a);
    range = λ a p e.
        woken-range (tasks a).priority p (select (tasks a)) (f a) (λ k. small a (h.on_wait a ∙ k))
          (h.range a) e;
    fits = λ a e. h.fits a (woken-placed (tasks a).priority (select (tasks a)) (f a) e);
  }
