-- ===== src/Kernel/Stack.antt =====
-- The stack of a new task (kernel/kernel.c): the fill pattern and `task_init_stack`. Memory is a map
-- from addresses to 32-bit words.
pub mod Laws
use helix_rt.Prelude.{
  ℕ, zero, suc, ◌+◌, ◌-◌, ◌*◌, ◌%◌, Ptr, none, some, List, [], ◌∷◌, ◌==◌, if◌then◌else◌,
}
use helix_rt.Config.{word}
use helix_rt.Task.{put}

abbrev pub Memory : Type 0
Memory = ℕ → ℕ

abbrev pub stack_fill : ℕ
stack_fill = 0xcdcdcdcd

abbrev pub exc_return_thread_psp : ℕ
exc_return_thread_psp = 0xfffffffd

-- The value of a pointer as a word.
abbrev pub address_of : Ptr → ℕ
address_of none = 0
address_of (some a) = a

-- `for (i = 0; i < words; i++) stack[i] = TASK_STACK_FILL;`
unfoldable pub fill_stack : ℕ → ℕ → Memory → Memory
fill_stack zero stack mem = mem
fill_stack (suc i) stack mem = put (fill_stack i stack mem) ((stack + 4 * i) % word) stack_fill

-- `*(--sp) = value;`
abbrev pub push : ℕ → ℕ × Memory → ℕ × Memory
push value (sp, mem) = let sp' = (sp + word - 4) % word in (sp', put mem sp' value)

unfoldable pub push_all : List ℕ → ℕ × Memory → ℕ × Memory
push_all [] s = s
push_all (value ∷ values) s = push_all values (push value s)

-- The words in the order in which the code pushes them: xPSR, PC, LR, R12, R3 to R0, and then
-- EXC_RETURN and R11 to R4.
abbrev pub first_frame : ℕ → Ptr → ℕ → List ℕ
first_frame entry arg exit_func =
    0x01000000
    ∷ entry
    ∷ exit_func
    ∷ 0
    ∷ 0
    ∷ 0
    ∷ 0
    ∷ address_of arg
    ∷ exc_return_thread_psp
    ∷ 0
    ∷ 0
    ∷ 0
    ∷ 0
    ∷ 0
    ∷ 0
    ∷ 0
    ∷ 0
    ∷ []

unfoldable pub task_init_stack : ℕ → ℕ → Ptr → ℕ → Memory → ℕ × Memory
unfolding push_all
task_init_stack stack_top entry arg exit_func mem =
    push_all (first_frame entry arg exit_func) (stack_top, mem)
