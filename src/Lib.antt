-- ===== src/Lib.antt =====
-- HelixRT: a real-time kernel for Cortex-M7 with a priority scheduler, semaphores, mutexes, message
-- queues, event groups and software timers. This library models the kernel's C code.
--
-- The state of the scheduler (kernel/scheduler.c) is the record Sched: g_sched, g_blocked_head,
-- current_task and the other globals, a store of task control blocks by address, and the processor
-- registers that the code reads or writes. A pointer is none (NULL) or an address. The functions of
-- the C code are functions on that state with their names; critical_enter and critical_exit save and
-- restore PRIMASK. An object of kernel/sync/ is given by its address and stands in a World beside the
-- scheduler. Other state of kernel/kernel.c is KernelVars, in a World too.
--
-- Files, and what they model (paths from the root of the repository):
--   Config             include/config.h
--   Task               kernel/task.h and the return codes of kernel/kernel.h
--   Bitmap             the bitmap functions of kernel/scheduler.h
--   Sched              kernel/scheduler.c and kernel/sync/critical.h: Links (the linked lists), Ready
--                      (the ready lists, yielding, selection), Block (blocking and waking), Tick;
--                      Chain and Valid hold the invariant of the lists; History has sequences of
--                      calls, and where they put each task
--   Sync/Wait          the loop "try, block, try again" that the blocking calls share
--   Sync/Semaphore     kernel/sync/semaphore.c and semaphore.h
--   Sync/Mutex         kernel/sync/mutex.c and mutex.h
--   Sync/Queue         kernel/sync/queue.c and queue.h
--   Sync/Event         kernel/sync/event.c and event.h
--   Timer              kernel/timer.c and timer.h
--   Kernel             kernel/kernel.c, kernel/syscall.h: Slots, Stack, Tasks, Control; Interrupts has
--                      SysTick_Handler, SVC_Handler and the wrappers of src/syscall.c; Switch has
--                      PendSV_Handler of kernel/context.s with the registers it saves
--   Startup            src/startup.c: Reset_Handler; Tables has its constant tables
--   Hal                hal/clock.h, gpio.h and uart.h, and the functions of imxrt1062.h
--   Critical           the rest of kernel/sync/critical.h, and kernel/sync/critical.c
--   App                src/main.c
--   Prelude            helpers on lists, bits and integers
--   Tests              concrete systems
--
-- IsValid of Sched/Valid says that the ready list of each priority and the blocked list are well
-- linked, hold no task twice and only tasks of that priority and state, and that the bitmap marks just
-- the priorities with a ready task.
--
-- The context switch is in two parts: pendsv_handler of Sched/Ready chooses the next task, and
-- switch_context of Kernel/Switch adds the registers and the stacks to it.
--
-- Sched/History runs sequences of calls beside an abstract scheduler, Places, which knows only whether a
-- task is on a ready list, on the blocked list or on none; Moves is what each call does to it, with the
-- conditions under which the call is covered, and Tracks relates it to the lists. scheduler_start and
-- scheduler_set_priority have no critical section: each is a call, and so are its steps (Start), so that
-- an interrupt may come between these.
--
-- Blocking. scheduler_block_task gives the processor away at its yield. A call is given, for each of its
-- waits, what the rest of the system does before it, while the task is switched out, and when it
-- resumes (Env): arbitrary functions on the state. Where the list of waits ends, the task is still
-- blocked; no fuel is needed. Waits of Sync/Wait says which world the waits of a call lead to, so that
-- the theorems speak of the very world in which the call succeeds. The loops over linked lists run on fuel 2 ^ 32, which is no less than
-- the list has members, since addresses are 32-bit words and no task is twice on a list.
--
-- Registers. A register that the code reads back is a field of a record; a write-only one is the list of
-- what was stored to it. Where the code waits for a status bit that the hardware sets, it is given the
-- list of the values that it reads; where the list ends it still waits (none). Reset_Handler's copying
-- loops and uart_puts run on fuel 2 ^ 32: every step moves on by an address.
--
-- Numbers are natural numbers with the 32-bit wrap-around written out; the semaphore's count is an
-- integer. Time slices, priorities and flags are numbers in range.
--
-- Not modelled: the floating-point registers, which kernel/context.s does not save, the endless loops
-- (default handlers, idle task, stack overflow and assertion hooks), and the registers and bits of
-- hal/imxrt1062.h that no function uses. The addresses that the linker assigns are parameters (Layout,
-- AppLayout, Sections), and kernel_tick_hook and the timers' callbacks are too.
pub mod Prelude
pub mod Config
pub mod Task
pub mod Bitmap
pub mod Sched
pub mod Sync
pub mod Timer
pub mod Kernel
pub mod Startup
pub mod Hal
pub mod Critical
pub mod App
pub mod Tests
