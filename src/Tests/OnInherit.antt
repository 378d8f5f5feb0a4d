-- ===== src/Tests/OnInherit.antt =====
-- A mutex at the address 600, held by the task at 200 and wanted by the one at 100.
use helix_rt.Prelude.{ℕ, ◌≡◌, refl, ap, true, none, some, [], arith}
use helix_rt.Task.{ok, block_mutex, put}
use helix_rt.Bitmap.{bitmap_find_highest, bitmap_set}
use helix_rt.Sched.{Sched, critical_enter, critical_exit, is_isr_context}
use helix_rt.Sched.Links.{ready_insert_tail, append_ready, ready_remove, blocked_insert}
use helix_rt.Sched.Ready.{scheduler_init, scheduler_add_task, preempt_for}
use helix_rt.Sched.Block.{World, waits_for}
use helix_rt.Sched.History.{
  Places, ready_at, waiting, run, Runs, add, set_priority, block, called, added, reprioritised,
  blocked,
}
use helix_rt.Sched.History.Laws.{Runs-Related}
use helix_rt.Sched.History.Calls.{Tracks}
use helix_rt.Sync.Wait.{still_blocked}
use helix_rt.Sync.Mutex.{Mutex, mutex_lock, mutex_unlock}
use helix_rt.Sync.Mutex.Inherit.{mutex_lock-inherits}
use helix_rt.Sync.Mutex.Restore.{mutex_unlock-restores}
use helix_rt.Tests.OnHistory.{one_placed, one, one-Runs, running, running-Runs, running-current}

abbrev held : Mutex
held = record {
  locked = 1;
  owner = some 200;
  owner_base_priority = 3;
  recursive_count = 1;
  flags = 0;
  wait_list_head = none;
  wait_list_tail = none;
}

-- The owner is ready at the priority 5, and the first task, at 3, runs.
abbrev two : Sched
two = run (set_priority 200 5) (run (add 200) one)

abbrev two_places : Places
two_places = put (put one_placed 200 (ready_at (one.tasks 200).priority)) 200 (ready_at 5)

two-Runs : Runs two two_places
unfolding run scheduler_add_task ready_insert_tail append_ready preempt_for scheduler_init
    critical_enter critical_exit
two-Runs =
    called (set_priority 200 5)
      (called (add 200) one-Runs (added 200 refl (omega arith) (omega arith)))
      (reprioritised 200 3 5 refl (omega arith))

abbrev wanted : World Mutex
wanted = record { kernel = record two { current_task = some 100; ipsr = 0 }; object = held }

mutex_lock-inherits_example :
    (w' : World Mutex) × (mutex_lock (some 600) 7 [] wanted ≡ still_blocked w')
    × (w'.object ≡ held)
    × Tracks w'.kernel (put (put two_places 200 (ready_at 3)) 100 waiting)
    × (waits_for block_mutex (some 600) (w'.kernel.tasks 100) ≡ true)
unfolding is_isr_context scheduler_init
mutex_lock-inherits_example =
    mutex_lock-inherits wanted 600 7 100 200 5 3 two_places refl refl refl refl
      (λ e. absurd (omega (arith, e))) refl (Runs-Related two-Runs).1 refl refl (omega arith)

-- The first task has blocked on the mutex, and the owner has inherited the priority 2.
abbrev boosted : Sched
boosted = run (set_priority 200 2) (run (add 200) (run (block block_mutex (some 600) 7) running))

abbrev boosted_places : Places
boosted_places =
    put
      (put (put one_placed 100 waiting) 200
        (ready_at ((run (block block_mutex (some 600) 7) running).tasks 200).priority))
      200 (ready_at 2)

late_priority : ((run (block block_mutex (some 600) 7) running).tasks 200).priority ≡ 3
unfolding run scheduler_add_task ready_insert_tail append_ready preempt_for scheduler_init
    critical_enter critical_exit bitmap_find_highest bitmap_set blocked_insert ready_remove
late_priority = refl

boosted-Runs : Runs boosted boosted_places
unfolding scheduler_init
boosted-Runs =
    called (set_priority 200 2)
      (called (add 200)
        (called (block block_mutex (some 600) 7) running-Runs
          (blocked block_mutex (some 600) 7 100 3 running-current refl))
        (added 200 refl (omega (arith, late_priority)) (omega arith)))
      (reprioritised 200 3 2 (ap ready_at late_priority) (omega arith))

abbrev owned : World Mutex
owned = record { kernel = record boosted { current_task = some 200; ipsr = 0 }; object = held }

owned-base : (owned.kernel.tasks 200).base_priority ≡ 3
unfolding run scheduler_add_task ready_insert_tail append_ready preempt_for scheduler_init
    critical_enter critical_exit bitmap_find_highest bitmap_set blocked_insert ready_remove
owned-base = refl

owned-waits : waits_for block_mutex (some 600) (owned.kernel.tasks 100) ≡ true
unfolding run scheduler_add_task ready_insert_tail append_ready preempt_for scheduler_init
    critical_enter critical_exit bitmap_find_highest bitmap_set blocked_insert ready_remove
owned-waits = refl

mutex_unlock-restores_example :
    (w' : World Mutex) × (t : ℕ) × (mutex_unlock (some 600) owned ≡ (ok, w'))
    × (w'.object.locked ≡ 0)
    × (w'.object.owner ≡ none)
    × (boosted_places t ≡ waiting)
    × (waits_for block_mutex (some 600) (owned.kernel.tasks t) ≡ true)
    × Tracks w'.kernel
        (put (put boosted_places 200 (ready_at 3)) t (ready_at (owned.kernel.tasks t).priority))
unfolding is_isr_context
mutex_unlock-restores_example =
    mutex_unlock-restores owned 600 200 3 2 100 boosted_places refl refl refl refl
      (Runs-Related boosted-Runs).1 refl owned-base (omega arith) (λ e. absurd (omega (arith, e)))
      refl owned-waits
