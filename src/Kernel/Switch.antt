-- ===== src/Kernel/Switch.antt =====
-- PendSV_Handler of kernel/context.s on the saved registers and the stacks, with the frames of
-- kernel/task.h.
pub mod Frames
pub mod Laws
pub mod Start
use helix_rt.Prelude.{ℕ, ◌+◌, ◌-◌, ◌*◌, ◌%◌, Ptr, Option, none, some, List, [], ◌∷◌}
use helix_rt.Config.{word}
use helix_rt.Task.{put}
use helix_rt.Sched.{Sched, update_tcb}
use helix_rt.Sched.Ready.{pendsv_handler}
use helix_rt.Sched.Block.{on_kernel}
use helix_rt.Kernel.{Machine, with_vars}
use helix_rt.Kernel.Stack.{Memory}

-- The registers that the handler saves: R4 to R11, and LR, which holds EXC_RETURN.
pub record SwStackFrame : Type 0 where
  pub r4 : ℕ
  pub r5 : ℕ
  pub r6 : ℕ
  pub r7 : ℕ
  pub r8 : ℕ
  pub r9 : ℕ
  pub r10 : ℕ
  pub r11 : ℕ
  pub exc_return : ℕ

-- What the processor stacks when it takes an exception, and loads when it returns.
pub record HwStackFrame : Type 0 where
  pub r0 : ℕ
  pub r1 : ℕ
  pub r2 : ℕ
  pub r3 : ℕ
  pub r12 : ℕ
  pub lr : ℕ
  pub pc : ℕ
  pub xpsr : ℕ

-- The registers beside the machine: those of the frame, and PSP.
pub record Cpu : Type 0 where
  pub saved : SwStackFrame
  pub psp : ℕ

-- The `i`-th word from `a`.
abbrev pub word_at : ℕ → ℕ → Memory → ℕ
word_at i a mem = mem ((a + 4 * i) % word)

-- The registers as `stmdb` and `ldmia` place them, the lowest first.
abbrev pub frame_words : SwStackFrame → List ℕ
frame_words f = f.r4 ∷ f.r5 ∷ f.r6 ∷ f.r7 ∷ f.r8 ∷ f.r9 ∷ f.r10 ∷ f.r11 ∷ f.exc_return ∷ []

unfoldable pub store_words : List ℕ → ℕ → Memory → Memory
store_words [] a mem = mem
store_words (x ∷ xs) a mem = store_words xs ((a + 4) % word) (put mem a x)

unfoldable pub load_frame : ℕ → Memory → SwStackFrame
load_frame a mem = record {
  r4 = word_at 0 a mem;
  r5 = word_at 1 a mem;
  r6 = word_at 2 a mem;
  r7 = word_at 3 a mem;
  r8 = word_at 4 a mem;
  r9 = word_at 5 a mem;
  r10 = word_at 6 a mem;
  r11 = word_at 7 a mem;
  exc_return = word_at 8 a mem;
}

-- What an exception return with this PSP loads.
unfoldable pub load_hw_frame : ℕ → Memory → HwStackFrame
load_hw_frame a mem = record {
  r0 = word_at 0 a mem;
  r1 = word_at 1 a mem;
  r2 = word_at 2 a mem;
  r3 = word_at 3 a mem;
  r12 = word_at 4 a mem;
  lr = word_at 5 a mem;
  pc = word_at 6 a mem;
  xpsr = word_at 7 a mem;
}

-- `r0 = psp - 36`
abbrev pub frame_below : ℕ → ℕ
frame_below psp = (psp + word - 36) % word

-- `stmdb r0!, {r4-r11, lr}` and `str r0, [r2]`, for the outgoing task if there is one.
unfoldable pub save_context : Cpu → Ptr → Machine → Machine
unfolding store_words
save_context c none w = w
save_context c (some t) w =
    let r0 = frame_below c.psp in
    with_vars (λ v. record v { memory = store_words (frame_words c.saved) r0 v.memory })
      (on_kernel (update_tcb t (λ b. record b { sp = r0 })) w)

-- `ldmia r1!, {r4-r11, lr}` and `msr psp, r1`.
unfoldable pub load_context : ℕ → Machine → Cpu
unfolding load_frame
load_context r1 w = record { saved = load_frame r1 w.object.memory; psp = (r1 + 36) % word }

-- With the incoming task. Without one LR still holds the return address of the call of
-- scheduler_select_next_task, so that `bx lr` goes on inside the handler for good: `none`.
unfoldable pub enter_task : Ptr → Machine → Option (Cpu × Machine)
unfolding load_context
enter_task none w = none
enter_task (some t) w = some (load_context (w.kernel.tasks t).sp w, w)

-- The whole handler. scheduler_select_next_task is taken to keep R3, which holds the address of
-- current_task.
unfoldable pub switch_context : Cpu → Machine → Option (Cpu × Machine)
unfolding save_context pendsv_handler enter_task
switch_context c w =
    let w1 = on_kernel pendsv_handler (save_context c w.kernel.current_task w) in
    enter_task w1.kernel.current_task w1
