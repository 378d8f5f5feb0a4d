-- ===== src/Kernel/Switch/Laws.antt =====
-- A task that is switched out and in again finds its registers.
use helix_rt.Prelude.{
  ℕ, ◌+◌, ◌-◌, ◌%◌, ◌≤◌, ◌<◌, ◌≡◌, ◌≢◌, refl, sym, ap, subst, ◌∙◌, ◌⊎◌, inl, inr, Ptr, none, some,
  arith, Option-cases,
}
use helix_rt.Config.{word}
use helix_rt.Task.{Tcbs, put}
use helix_rt.Sched.Ready.{pendsv_handler, scheduler_get_next, scheduler_select_next_task}
use helix_rt.Sched.Block.{on_kernel}
use helix_rt.Kernel.{Machine}
use helix_rt.Kernel.Stack.Laws.{words_at}
use helix_rt.Kernel.Switch.{
  Cpu, frame_words, store_words, frame_below, save_context, load_context, enter_task,
  switch_context,
}
use helix_rt.Kernel.Switch.Frames.{load_frame_lem, store_words-words, words_at-store_words}

-- The context `c` of the task `t` is on its stack, where its control block says.
pub record Holds (c : Cpu) (t : ℕ) (w : Machine) : Type 0 where
  pub pointer : (w.kernel.tasks t).sp ≡ c.psp - 36
  pub words : words_at 9 (c.psp - 36) w.object.memory ≡ frame_words c.saved

-- The machine once the handler has saved `t` and stored the selected task as the current one.
abbrev handled : Cpu → ℕ → Machine → Machine
handled c t w = on_kernel pendsv_handler (save_context c (some t) w)

-- What the handler does, from the current task and the selected one.
switch_context-eq :
    (c : Cpu) (w : Machine) (t : ℕ)
    → w.kernel.current_task ≡ some t
    → switch_context c w ≡ enter_task (scheduler_get_next w.kernel) (handled c t w)
unfolding switch_context save_context pendsv_handler scheduler_select_next_task scheduler_get_next
switch_context-eq c w t e =
    ap
      (λ (o : Ptr).
        let z = on_kernel pendsv_handler (save_context c o w) in enter_task z.kernel.current_task z)
      e

module _ (c : Cpu) (w : Machine) (t : ℕ) (low : 36 ≤ c.psp) (high : c.psp < word) where
  below : frame_below c.psp ≡ c.psp - 36
  below = omega arith

  -- After the handler's first half the context is on the stack.
  handled-Holds : Holds c t (handled c t w)
  unfolding pendsv_handler scheduler_select_next_task save_context
  handled-Holds = record {
    pointer = own (w.kernel.tasks) ∙ below;
    words =
        ap
          (λ (a : ℕ). words_at 9 (c.psp - 36) (store_words (frame_words c.saved) a w.object.memory))
          below
        ∙ store_words-words (frame_words c.saved) (c.psp - 36) w.object.memory (omega arith);
  }
    where
      own :
          (tasks : Tcbs)
          → (put tasks t (record (tasks t) { sp = frame_below c.psp }) t).sp ≡ frame_below c.psp
      own tasks = ground arith

  -- It stays there when the handler saves another task elsewhere.
  handled-keeps :
      (c2 : Cpu) (b : ℕ)
      → Holds c t w
      → b ≢ t
      → 36 ≤ c2.psp
      → c2.psp < word
      → (c.psp + 36 ≤ c2.psp) ⊎ (c2.psp + 36 ≤ c.psp)
      → Holds c t (handled c2 b w)
  unfolding pendsv_handler scheduler_select_next_task save_context
  handled-keeps c2 b h other low2 high2 apart = record {
    pointer = kept w.kernel.tasks (frame_below c2.psp) ∙ h.pointer;
    words =
        ap
          (λ (a : ℕ).
            words_at 9 (c.psp - 36) (store_words (frame_words c2.saved) a w.object.memory))
          (omega arith)
        ∙ words_at-store_words 9 (c.psp - 36) (frame_words c2.saved) (c2.psp - 36) w.object.memory
            (omega arith) (ground arith)
        ∙ h.words;
  }
    where
      kept :
          (tasks : Tcbs) (n : ℕ) → (put tasks b (record (tasks b) { sp = n }) t).sp ≡ (tasks t).sp
      kept tasks n = ground arith

  -- Loading it gives the context back.
  load_context_lem : Holds c t w → load_context (w.kernel.tasks t).sp w ≡ c
  unfolding load_context
  load_context_lem h = ap (λ (a : ℕ). load_context a w) h.pointer ∙ (λ i. record {
    saved = load_frame_lem c.saved (c.psp - 36) w.object.memory (omega arith) h.words i;
    psp = top i;
  })
    where
      top : (c.psp - 36 + 36) % word ≡ c.psp
      top = omega arith

handled-current :
    (c : Cpu) (w : Machine) (t : ℕ)
    → (handled c t w).kernel.current_task ≡ scheduler_get_next w.kernel
unfolding pendsv_handler scheduler_select_next_task save_context scheduler_get_next
handled-current c w t = refl

-- A switch away from a task, when some task is ready.
pub switch_context-out :
    (c : Cpu) (w : Machine) (t n : ℕ)
    → 36 ≤ c.psp
    → c.psp < word
    → w.kernel.current_task ≡ some t
    → scheduler_get_next w.kernel ≡ some n
    → (c1 : Cpu) × (w1 : Machine) × (switch_context c w ≡ some (c1, w1))
      × Holds c t w1
      × (w1.kernel.current_task ≡ some n)
unfolding enter_task
switch_context-out c w t n low high runs chosen = (
  load_context ((handled c t w).kernel.tasks n).sp (handled c t w),
  handled c t w,
  switch_context-eq c w t runs ∙ ap (λ (o : Ptr). enter_task o (handled c t w)) chosen,
  handled-Holds c w t low high,
  handled-current c w t ∙ chosen,
)

-- A switch back to a task whose context is held.
pub switch_context-in :
    (c c2 : Cpu) (w2 : Machine) (t b : ℕ)
    → 36 ≤ c.psp
    → c.psp < word
    → 36 ≤ c2.psp
    → c2.psp < word
    → Holds c t w2
    → w2.kernel.current_task ≡ some b
    → b ≢ t
    → (c.psp + 36 ≤ c2.psp) ⊎ (c2.psp + 36 ≤ c.psp)
    → scheduler_get_next w2.kernel ≡ some t
    → (w3 : Machine) × (switch_context c2 w2 ≡ some (c, w3))
      × (w3.kernel.current_task ≡ some t)
      × (w3.object.memory ≡ store_words (frame_words c2.saved) (c2.psp - 36) w2.object.memory)
unfolding enter_task save_context
switch_context-in c c2 w2 t b low high low2 high2 h runs other apart chosen = (
  handled c2 b w2,
  switch_context-eq c2 w2 b runs
      ∙ ap (λ (o : Ptr). enter_task o (handled c2 b w2)) chosen
      ∙ ap (λ (r : Cpu). some (r, handled c2 b w2))
          (load_context_lem c (handled c2 b w2) t low high
            (handled-keeps c w2 t low high c2 b h other low2 high2 apart)),
  handled-current c2 w2 b ∙ chosen,
  ap (λ (a : ℕ). store_words (frame_words c2.saved) a w2.object.memory) (below c2 w2 b low2 high2),
)

-- From the first switch's outcome.
held_after :
    (c c1 : Cpu) (w w1 : Machine) (t : ℕ)
    → 36 ≤ c.psp
    → c.psp < word
    → w.kernel.current_task ≡ some t
    → switch_context c w ≡ some (c1, w1)
    → Holds c t w1
unfolding enter_task
held_after c c1 w w1 t low high runs e = elim (Option-cases (scheduler_get_next w.kernel)) [
  | inl none_ready ↦ absurd (
      nothing (c1, w1)
        (sym e
          ∙ switch_context-eq c w t runs
          ∙ ap (λ (o : Ptr). enter_task o (handled c t w)) none_ready))
  | inr (n, chosen) ↦
      let (c', w', f, h, cur) = switch_context-out c w t n low high runs chosen in
      subst (Holds c t) (ap (λ (p : Cpu × Machine). p.1) (same (c', w') (c1, w1) (sym f ∙ e))) h
]
  where
    nothing : (p : Cpu × Machine) → some p ≡ none → ⊥
    nothing p f = cc

    same : (p q : Cpu × Machine) → some p ≡ some q → p ≡ q
    same p q f = cc

-- If a switch from a task is followed by whatever leaves its stack pointer and the saved words alone,
-- then a switch from another task, whose frame lies elsewhere, to this one gives it its registers and
-- its stack pointer back, and makes it the current task.
pub switch_context-back :
    (c c1 c2 : Cpu) (w w1 w2 : Machine) (t b : ℕ)
    → 36 ≤ c.psp
    → c.psp < word
    → 36 ≤ c2.psp
    → c2.psp < word
    → w.kernel.current_task ≡ some t
    → switch_context c w ≡ some (c1, w1)
    → (w2.kernel.tasks t).sp ≡ (w1.kernel.tasks t).sp
    → words_at 9 (c.psp - 36) w2.object.memory ≡ words_at 9 (c.psp - 36) w1.object.memory
    → w2.kernel.current_task ≡ some b
    → b ≢ t
    → (c.psp + 36 ≤ c2.psp) ⊎ (c2.psp + 36 ≤ c.psp)
    → scheduler_get_next w2.kernel ≡ some t
    → (w3 : Machine) × (switch_context c2 w2 ≡ some (c, w3)) × (w3.kernel.current_task ≡ some t)
switch_context-back c c1 c2 w w1 w2 t b low high low2 high2 runs first sp_kept words_kept runs2
      other apart chosen =
    let h : Holds c t w1 = held_after c c1 w w1 t low high runs first in
    let (w3, e, runs3, _) =
      switch_context-in c c2 w2 t b low high low2 high2
        (record { pointer = sp_kept ∙ h.pointer; words = words_kept ∙ h.words }) runs2 other apart
        chosen in
    (w3, e, runs3)
