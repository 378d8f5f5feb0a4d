-- ===== src/Sched/Valid.antt =====
-- The invariant of the scheduler's lists: what g_sched.ready_list, g_sched.priority_bitmap and
-- g_blocked_head stand for.
pub mod Frame
pub mod Insert
pub mod Blocked
pub mod Remove
use helix_rt.Prelude.{
  ℕ, ◌<◌, Ptr, ◌≡◌, List, true, false, none, has, Distinct, is_null, if◌then◌else◌,
}
use helix_rt.Prelude.Bits.{bit}
use helix_rt.Config.{word, max_priority}
use helix_rt.Task.{Tcbs, blocked}
use helix_rt.Sched.{Sched}
use helix_rt.Sched.Ready.{is_runnable}
use helix_rt.Sched.Chain.{Chain}

-- A member of the ready list of priority `p`. Addresses are 32 bits wide.
pub record IsReadyAt (tasks : Tcbs) (p a : ℕ) : Type 0 where
  pub priority : (tasks a).priority ≡ p
  pub runnable : is_runnable (tasks a) ≡ true
  pub address : a < word

-- A member of the blocked list.
pub record IsBlockedAt (tasks : Tcbs) (a : ℕ) : Type 0 where
  pub priority : (tasks a).priority < max_priority
  pub state : (tasks a).state ≡ blocked
  pub address : a < word

-- The ready list of priority `p` is `xs`, and its bit says whether it is empty.
pub record Queue (tasks : Tcbs) (bitmap : ℕ) (head : Ptr) (p : ℕ) (xs : List ℕ) : Type 0 where
  pub chain : Chain tasks none xs head
  pub distinct : Distinct xs
  pub members : (a : ℕ) → has a xs ≡ true → IsReadyAt tasks p a
  pub marked : bit bitmap p ≡ (if is_null head then 0 else 1)

-- The blocked list is `xs`.
pub record Waiting (tasks : Tcbs) (head : Ptr) (xs : List ℕ) : Type 0 where
  pub chain : Chain tasks none xs head
  pub distinct : Distinct xs
  pub members : (a : ℕ) → has a xs ≡ true → IsBlockedAt tasks a

-- `queues p` are the tasks on the ready list of priority `p`, and `waiting` those on the blocked
-- list, in list order.
pub record Lists (tasks : Tcbs) (bitmap : ℕ) (heads : ℕ → Ptr) (blocked_head : Ptr)
    (queues : ℕ → List ℕ) (waiting : List ℕ) : Type 0 where
  pub bitmap_word : bitmap < word
  pub queue : (p : ℕ) → p < max_priority → Queue tasks bitmap (heads p) p (queues p)
  pub wait_list : Waiting tasks blocked_head waiting

abbrev pub IsValid : Sched → (ℕ → List ℕ) → List ℕ → Type 0
IsValid s queues waiting =
    Lists s.tasks s.priority_bitmap s.ready_list s.blocked_head queues waiting

-- `t` is on no list.
abbrev pub IsLoose : ℕ → (ℕ → List ℕ) → List ℕ → Type 0
IsLoose t queues waiting =
    ((p : ℕ) → p < max_priority → has t (queues p) ≡ false) × (has t waiting ≡ false)
