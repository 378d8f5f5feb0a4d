-- ===== src/Tests/OnHistory.antt =====
-- A history of calls: a task is added, the scheduler starts with it, it blocks for 5 ticks, and a tick
-- comes.
use helix_rt.Prelude.{◌≡◌, refl, none, some, arith}
use helix_rt.Task.{ok, block_delay}
use helix_rt.Bitmap.{bitmap_find_highest, bitmap_set}
use helix_rt.Sched.{Sched, critical_enter, critical_exit}
use helix_rt.Sched.Links.{ready_insert_tail, append_ready, last_of}
use helix_rt.Sched.Ready.{
  scheduler_init, scheduler_add_task, scheduler_get_next, preempt_for, pendsv_handler,
  scheduler_start,
}
use helix_rt.Sched.Tick.{expires}
use helix_rt.Sched.Tick.Laws.{next_tick}
use helix_rt.Sched.History.{
  Places, nowhere, ready_at, waiting, waken, run, Runs, add, start, block, tick, started, called,
  added, begun, blocked, ticked,
}
use helix_rt.Sched.History.Laws.{Related, Runs-Related}
use helix_rt.Sched.History.Delay.{ticks, delay-ends}
use helix_rt.Sched.Block.{block_self}
use helix_rt.Kernel.{Machine}
use helix_rt.Kernel.Interrupts.{syscall_task_delay}
use helix_rt.Kernel.Interrupts.Delay.{syscall_task_delay-ends}
use helix_rt.Tests.OnKernel.{layout, vars}
use helix_rt.Sched.History.Choice.{Picks, Runs-Picks}
use helix_rt.Task.{put}
use helix_rt.Tests.{blank}

abbrev pub none_placed : Places
none_placed = λ a. nowhere

abbrev pub one_placed : Places
one_placed = put none_placed 100 (ready_at ((scheduler_init blank).tasks 100).priority)

abbrev pub one : Sched
one = run (add 100) (scheduler_init blank)

pub one-Runs : Runs one one_placed
unfolding scheduler_init
one-Runs = called (add 100) (started blank) (added 100 refl (omega arith) (omega arith))

abbrev pub running : Sched
running = run start one

pub running-Runs : Runs running one_placed
running-Runs = called start one-Runs begun

pub running-current : running.current_task ≡ some 100
unfolding run scheduler_start scheduler_get_next bitmap_find_highest bitmap_set scheduler_add_task
    ready_insert_tail append_ready last_of preempt_for scheduler_init critical_enter critical_exit
running-current = refl

abbrev asleep : Sched
asleep = run (block block_delay none 5) running

abbrev asleep_places : Places
asleep_places = put one_placed 100 waiting

asleep-Runs : Runs asleep asleep_places
unfolding scheduler_init
asleep-Runs =
    called (block block_delay none 5) running-Runs
      (blocked block_delay none 5 100 3 running-current refl)

Runs-Related_example :
    Related (run tick asleep) (waken (expires (next_tick asleep)) asleep.tasks asleep_places)
Runs-Related_example = Runs-Related (called tick asleep-Runs ticked)

Runs-Picks_example : Picks one_placed (pendsv_handler running).current_task
Runs-Picks_example = Runs-Picks running-Runs

running-clock : running.tick_count ≡ 0
unfolding run scheduler_start scheduler_get_next bitmap_find_highest bitmap_set scheduler_add_task
    ready_insert_tail append_ready last_of preempt_for scheduler_init critical_enter critical_exit
running-clock = refl

-- The first task delays itself for 5 ticks.
abbrev delayed : Sched
delayed = block_self block_delay none 5 100 running

delay-ends_example :
    ((g : Places) × Related (ticks 4 delayed) g × (g 100 ≡ waiting))
    × ((g : Places) × Related (ticks 5 delayed) g × (g 100 ≡ ready_at 3))
unfolding scheduler_init
delay-ends_example =
    delay-ends running one_placed 100 3 5 4 (Runs-Related running-Runs) refl (omega arith)
      (omega arith) (omega (arith, running-clock)) (omega arith)

abbrev delaying : Machine
delaying = record { kernel = running; object = vars }

syscall_task_delay-ends_example :
    (w' : Machine) × (syscall_task_delay layout 5 0 0 delaying ≡ (some ok, w'))
    × (w'.kernel.ipsr ≡ 0)
    × ((g : Places) × Related (ticks 4 (pendsv_handler w'.kernel)) g × (g 100 ≡ waiting))
    × ((g : Places) × Related (ticks 5 (pendsv_handler w'.kernel)) g × (g 100 ≡ ready_at 3))
unfolding scheduler_init
syscall_task_delay-ends_example =
    syscall_task_delay-ends layout delaying one_placed 100 3 5 0 0 (Runs-Related running-Runs)
      running-current refl (omega arith) (omega arith) (omega (arith, running-clock)) 4
      (omega arith)
