-- ===== src/Sched/Ready/Lost.antt =====
-- `scheduler_remove_task` on a task that is on the blocked list, as `task_suspend` and `task_delete`
-- call it for a task in any state.
use helix_rt.Prelude.{ℕ, refl, List, [], ◌∷◌, none, some, ==_self}
use helix_rt.Sched.{Sched}
use helix_rt.Sched.Links.{ready_remove, unlink}
use helix_rt.Sched.Ready.{scheduler_remove_task}
use helix_rt.Sched.Chain.{Chain}
use helix_rt.Sched.Valid.{IsValid}

-- Removing the first task of the blocked list leaves a blocked list of just that task: it keeps its
-- place, and every task that was blocked behind it is no longer on the list.
pub scheduler_remove_task-drops_waiters :
    (s : Sched) (queues : ℕ → List ℕ) (t : ℕ) (waiting : List ℕ)
    → IsValid s queues (t ∷ waiting)
    → let s' = scheduler_remove_task (some t) s in Chain s'.tasks none (t ∷ []) s'.blocked_head
unfolding scheduler_remove_task ready_remove unlink
scheduler_remove_task-drops_waiters s queues t waiting v =
    (v.wait_list.chain.0, rw (==_self t) refl, rw (==_self t) refl)
