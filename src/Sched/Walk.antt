-- ===== src/Sched/Walk.antt =====
-- The loops of `scheduler_tick` and `scheduler_unblock_all` along the blocked list, which wake the
-- tasks that a test selects. The test and the walk's links read what a wake-up leaves alone.
pub mod Laws
use helix_rt.Prelude.{
  ℕ, zero, suc, ◌≤◌, Ptr, ◌≡◌, ◌≢◌, refl, sym, ap, subst, ◌∙◌, inl, inr, List, [], ◌∷◌, ◌++◌, Bool,
  true, false, none, some, has, has-append, remove, Distinct, length, ◌==◌, ==_self, if◌then◌else◌,
  arith, Bool-cases, Option-cases, eq_of_==,
}
use helix_rt.Config.{word}
use helix_rt.Task.{Tcb, Tcbs, Code, put, set_next, set_prev}
use helix_rt.Sched.{Sched, update_tcb}
use helix_rt.Sched.Links.{
  unlink, append_ready, ready_insert_tail, blocked_remove, set_next_at, set_prev_at, last_of,
}
use helix_rt.Sched.Block.{release, woken_tcb}
use helix_rt.Sched.Chain.{Chain}
use helix_rt.Sched.Valid.{IsValid}
use helix_rt.Sched.Valid.Insert.{append_queue}
use helix_rt.Sched.Block.Laws.{release-IsValid}

-- A control block without its links.
abbrev pub data_of : Tcb → Tcb
data_of b = record b { next = none; prev = none }

pub put-data :
    (tasks : Tcbs) (x a : ℕ) (b : Tcb)
    → data_of b ≡ data_of (tasks x)
    → data_of (put tasks x b a) ≡ data_of (tasks a)
put-data tasks x a b h = elim (Bool-cases (a == x)) [
  | inl e ↦ rw e (h ∙ ap (λ (c : ℕ). data_of (tasks c)) (sym (eq_of_== a x e)))
  | inr e ↦ rw e refl
]

set_next_at-data :
    (p q : Ptr) (tasks : Tcbs) (a : ℕ) → data_of (set_next_at p q tasks a) ≡ data_of (tasks a)
set_next_at-data none q tasks a = refl
set_next_at-data (some x) q tasks a = put-data tasks x a _ refl

set_prev_at-data :
    (p q : Ptr) (tasks : Tcbs) (a : ℕ) → data_of (set_prev_at p q tasks a) ≡ data_of (tasks a)
set_prev_at-data none q tasks a = refl
set_prev_at-data (some x) q tasks a = put-data tasks x a _ refl

pub unlink-data : (t a : ℕ) (tasks : Tcbs) → data_of (unlink t tasks a) ≡ data_of (tasks a)
unfolding unlink
unlink-data t a tasks =
    let joined : Tcbs = set_next_at (tasks t).prev (tasks t).next tasks in
    put-data (set_prev_at (joined t).next (joined t).prev joined) t a _ refl
    ∙ set_prev_at-data (joined t).next (joined t).prev joined a
    ∙ set_next_at-data (tasks t).prev (tasks t).next tasks a

pub append_ready-data :
    (head : Ptr) (t prio a : ℕ) (s : Sched)
    → data_of ((append_ready head t prio s).tasks a) ≡ data_of (s.tasks a)
unfolding append_ready
append_ready-data none t prio a s = refl
append_ready-data (some h) t prio a s =
    let tail : ℕ = last_of word s.tasks h in
    put-data (set_next tail (some t) s.tasks) t a _ refl ∙ put-data s.tasks tail a _ refl

pub put_ne-data :
    (tasks : Tcbs) (x a : ℕ) (b : Tcb)
    → (a == x) ≡ false
    → data_of (put tasks x b a) ≡ data_of (tasks a)
put_ne-data tasks x a b ne = rw ne refl

-- A wake-up changes no other task but in its links.
pub release-data :
    (t a : ℕ) (result : Code) (s : Sched)
    → (a == t) ≡ false
    → data_of ((release t result s).tasks a) ≡ data_of (s.tasks a)
unfolding release ready_insert_tail blocked_remove
release-data t a result s ne =
    let s1 : Sched = update_tcb t (woken_tcb result) (blocked_remove t s) in
    append_ready-data (s1.ready_list (s1.tasks t).priority) t (s1.tasks t).priority a _
    ∙ put-data s1.tasks t a _ refl
    ∙ put_ne-data (unlink t s.tasks) t a (woken_tcb result (unlink t s.tasks t)) ne
    ∙ unlink-data t a s.tasks

-- The first task of a list, as a pointer to it.
abbrev pub head_of : List ℕ → Ptr
head_of [] = none
head_of (x ∷ xs) = some x

pub head-eq_of_Chain :
    (tasks : Tcbs) (prev head : Ptr) (xs : List ℕ) → Chain tasks prev xs head → head ≡ head_of xs
head-eq_of_Chain tasks prev head [] c = c
head-eq_of_Chain tasks prev head (x ∷ xs) c = c.0

pub next-eq_of_Chain :
    (tasks : Tcbs) (kept : List ℕ) (prev head : Ptr) (t : ℕ) (ts : List ℕ)
    → Chain tasks prev (kept ++ (t ∷ ts)) head
    → (tasks t).next ≡ head_of ts
next-eq_of_Chain tasks [] prev head t ts (_, _, c) =
    head-eq_of_Chain tasks (some t) (tasks t).next ts c
next-eq_of_Chain tasks (x ∷ kept) prev head t ts (_, _, c) =
    next-eq_of_Chain tasks kept (some x) (tasks x).next t ts c

pub absent_in_front :
    (kept : List ℕ) (t : ℕ) (ts : List ℕ) → Distinct (kept ++ (t ∷ ts)) → has t kept ≡ false
absent_in_front [] t ts d = refl
absent_in_front (x ∷ kept) t ts (out, d) =
    ground (arith, has-append x kept (t ∷ ts), absent_in_front kept t ts d)

pub absent_behind :
    (kept : List ℕ) (t : ℕ) (ts : List ℕ) → Distinct (kept ++ (t ∷ ts)) → has t ts ≡ false
absent_behind [] t ts d = d.0
absent_behind (x ∷ kept) t ts d = absent_behind kept t ts d.1

pub remove_middle :
    (kept : List ℕ) (t : ℕ) (ts : List ℕ)
    → has t kept ≡ false
    → remove t (kept ++ (t ∷ ts)) ≡ kept ++ ts
unfolding remove
remove_middle [] t ts h = rw (==_self t) refl
remove_middle (x ∷ kept) t ts h = ground (arith, remove_middle kept t ts)

-- The tasks of a list that a test selects, the others, and the ready lists when those selected have
-- been appended to them one after the other.
abbrev pub chosen : (Tcb → Bool) → Tcbs → List ℕ → List ℕ
chosen select tasks [] = []
chosen select tasks (t ∷ ts) =
    let rest = chosen select tasks ts in if select (tasks t) then t ∷ rest else rest

abbrev pub others : (Tcb → Bool) → Tcbs → List ℕ → List ℕ
others select tasks [] = []
others select tasks (t ∷ ts) =
    let rest = others select tasks ts in if select (tasks t) then rest else t ∷ rest

abbrev pub append_all : Tcbs → List ℕ → (ℕ → List ℕ) → ℕ → List ℕ
append_all tasks [] queues = queues
append_all tasks (t ∷ ts) queues = append_all tasks ts (append_queue queues (tasks t).priority t)

-- The walk along a list that is known.
abbrev pub walk : (Tcb → Bool) → (Tcb → Code) → List ℕ → Sched → Sched
walk select result [] s = s
walk select result (t ∷ ts) s =
    walk select result ts (if select (s.tasks t) then release t (result (s.tasks t)) s else s)

-- `u` is the store before the walk.
abbrev pub Agrees : Tcbs → Tcbs → List ℕ → Type 0
Agrees t u xs = (a : ℕ) → has a xs ≡ true → data_of (t a) ≡ data_of (u a)

pub Agrees-tail : (t u : Tcbs) (x : ℕ) (xs : List ℕ) → Agrees t u (x ∷ xs) → Agrees t u xs
Agrees-tail t u x xs h a k = h a (ground arith)

pub Agrees-release :
    (u : Tcbs) (t : ℕ) (ts : List ℕ) (result : Code) (s : Sched)
    → has t ts ≡ false
    → Agrees s.tasks u (t ∷ ts)
    → Agrees (release t result s).tasks u ts
Agrees-release u t ts result s out h a k =
    release-data t a result s (ground arith) ∙ h a (ground arith)
