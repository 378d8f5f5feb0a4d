-- ===== src/Task.antt =====
-- kernel/task.h and the return codes of kernel/kernel.h: the task control block, its enumerations
-- and the store of control blocks. A pointer is `none` (NULL) or the address of an object.
use helix_rt.Prelude.{ℕ, List, Bool, Ptr, ◌==◌, if◌then◌else◌}

-- KERNEL_OK and the KERNEL_ERR_ codes.
pub data Code : Type 0 where
  ok err_param err_no_mem err_timeout err_isr err_state err_deleted err_overflow : Code

abbrev pub is_ok : Code → Bool
is_ok ok = Bool.true
is_ok _ = Bool.false

pub data TaskState : Type 0 where
  ready running blocked suspended deleted : TaskState

-- The values of `task_state_t`.
abbrev pub state_value : TaskState → ℕ
state_value ready = 0
state_value running = 1
state_value blocked = 2
state_value suspended = 3
state_value deleted = 4

abbrev pub same_state : TaskState → TaskState → Bool
same_state a b = state_value a == state_value b

pub data BlockReason : Type 0 where
  block_none block_delay block_semaphore block_mutex block_queue_send block_queue_recv block_event :
      BlockReason

-- The values of `block_reason_t`.
abbrev pub reason_value : BlockReason → ℕ
reason_value block_none = 0
reason_value block_delay = 1
reason_value block_semaphore = 2
reason_value block_mutex = 3
reason_value block_queue_send = 4
reason_value block_queue_recv = 5
reason_value block_event = 6

abbrev pub same_reason : BlockReason → BlockReason → Bool
same_reason a b = reason_value a == reason_value b

-- `task_tcb_t`, with CONFIG_TASK_STATS on. `name` is the text up to its NUL.
pub record Tcb : Type 0 where
  pub sp : ℕ
  pub next : Ptr
  pub prev : Ptr
  pub id : ℕ
  pub name : List ℕ
  pub entry : Ptr
  pub arg : Ptr
  pub priority : ℕ
  pub base_priority : ℕ
  pub state : TaskState
  pub flags : ℕ
  pub stack_base : ℕ
  pub stack_top : ℕ
  pub stack_size : ℕ
  pub delay_ticks : ℕ
  pub time_slice : ℕ
  pub wake_tick : ℕ
  pub block_reason : BlockReason
  pub block_object : Ptr
  pub block_timeout : ℕ
  pub block_result : Code
  pub run_count : ℕ
  pub total_ticks : ℕ
  pub max_stack_used : ℕ
  pub event_wait_bits : ℕ
  pub event_wait_all : ℕ

-- Memory as the control block that stands at each address.
abbrev pub Tcbs : Type 0
Tcbs = ℕ → Tcb

-- A map with one entry replaced.
abbrev pub put {ℓ} : {A : Type ℓ} → (ℕ → A) → ℕ → A → ℕ → A
put f a v x = if x == a then v else f x

-- The two link fields, `tcb->next = p` and `tcb->prev = p`.
abbrev pub set_next : ℕ → Ptr → Tcbs → Tcbs
set_next a p tasks = put tasks a (record (tasks a) { next = p })

abbrev pub set_prev : ℕ → Ptr → Tcbs → Tcbs
set_prev a p tasks = put tasks a (record (tasks a) { prev = p })
