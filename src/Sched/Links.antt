-- ===== src/Sched/Links.antt =====
-- The static list functions of kernel/scheduler.c: `ready_insert_tail`, `blocked_insert`,
-- `blocked_remove`, and the unlinking that `scheduler_remove_task` does in place.
use helix_rt.Prelude.{ℕ, zero, suc, Ptr, none, some, same_ptr, is_null, if◌then◌else◌}
use helix_rt.Config.{word}
use helix_rt.Task.{Tcbs, put, set_next, set_prev}
use helix_rt.Bitmap.{bitmap_set, bitmap_clear}
use helix_rt.Sched.{Sched}

-- `while (head->next != NULL) head = head->next;` on fuel.
unfoldable pub last_of : ℕ → Tcbs → ℕ → ℕ
last_of zero tasks head = head
last_of (suc fuel) tasks head = elim ((tasks head).next) [
  | none ↦ head
  | some n ↦ last_of fuel tasks n
]

-- `tcb->next = NULL; tcb->prev = NULL;`
abbrev pub clear_links : ℕ → Tcbs → Tcbs
clear_links t tasks = put tasks t (record (tasks t) { next = none; prev = none })

-- `if (p != NULL) p->next = q;` and `if (p != NULL) p->prev = q;`
abbrev pub set_next_at : Ptr → Ptr → Tcbs → Tcbs
set_next_at none q tasks = tasks
set_next_at (some p) q tasks = set_next p q tasks

abbrev pub set_prev_at : Ptr → Ptr → Tcbs → Tcbs
set_prev_at none q tasks = tasks
set_prev_at (some p) q tasks = set_prev p q tasks

-- The neighbours of `t` are joined, and its own links cleared.
unfoldable pub unlink : ℕ → Tcbs → Tcbs
unlink t tasks =
    let joined = set_next_at (tasks t).prev (tasks t).next tasks in
    clear_links t (set_prev_at (joined t).next (joined t).prev joined)

unfoldable pub append_ready : Ptr → ℕ → ℕ → Sched → Sched
append_ready none t prio s = record s {
  ready_list = put s.ready_list prio (some t);
  priority_bitmap = bitmap_set s.priority_bitmap prio;
}
append_ready (some head) t prio s =
    let last = last_of word s.tasks head in
    record s { tasks = set_prev t (some last) (set_next last (some t) s.tasks) }

unfoldable pub ready_insert_tail : ℕ → Sched → Sched
unfolding append_ready
ready_insert_tail t s =
    let prio = (s.tasks t).priority in
    append_ready (s.ready_list prio) t prio (record s { tasks = clear_links t s.tasks })

unfoldable pub blocked_insert : ℕ → Sched → Sched
blocked_insert t s =
    let linked = put s.tasks t (record (s.tasks t) { next = s.blocked_head; prev = none }) in
    record s { tasks = set_prev_at s.blocked_head (some t) linked; blocked_head = some t }

-- The list head that `blocked_remove` leaves.
abbrev pub blocked_head_without : ℕ → Sched → Ptr
blocked_head_without t s = elim ((s.tasks t).prev) [
  | some p ↦ s.blocked_head
  | none ↦ if same_ptr s.blocked_head (some t) then (s.tasks t).next else s.blocked_head
]

unfoldable pub blocked_remove : ℕ → Sched → Sched
unfolding unlink
blocked_remove t s = record s { tasks = unlink t s.tasks; blocked_head = blocked_head_without t s }

-- The body of `scheduler_remove_task`, between the critical section's ends.
unfoldable pub ready_remove : ℕ → Sched → Sched
unfolding unlink
ready_remove t s =
    let prio = (s.tasks t).priority in
    let heads =
      if same_ptr (s.ready_list prio) (some t)
      then put s.ready_list prio (s.tasks t).next
      else s.ready_list in
    record s {
      ready_list = heads;
      priority_bitmap =
          if is_null (heads prio) then bitmap_clear s.priority_bitmap prio else s.priority_bitmap;
      tasks = unlink t s.tasks;
    }
