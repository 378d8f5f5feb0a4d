-- ===== src/Kernel/Stack/Laws.antt =====
-- What `task_init_stack` leaves in memory.
use helix_rt.Prelude.{
  ℕ, zero, suc, ◌+◌, ◌-◌, ◌*◌, ◌%◌, ◌≤◌, ◌<◌, ◌≡◌, refl, sym, ap, subst, ◌∙◌, Ptr, List, [], ◌∷◌,
  ◌==◌, length, false, ==_self, arith,
}
use helix_rt.Config.{word}
use helix_rt.Task.{put}
use helix_rt.Kernel.Stack.{
  Memory, push, push_all, first_frame, address_of, exc_return_thread_psp, task_init_stack,
}

-- The `n` words from `sp` upwards.
abbrev pub words_at : ℕ → ℕ → Memory → List ℕ
words_at zero sp mem = []
words_at (suc n) sp mem = mem sp ∷ words_at n (sp + 4) mem

-- A word below the range does not show.
words_at-put :
    (n sp a value : ℕ) (mem : Memory) → a < sp → words_at n sp (put mem a value) ≡ words_at n sp mem
words_at-put zero sp a value mem h = refl
words_at-put (suc n) sp a value mem h =
    let ne : (sp == a) ≡ false = ground arith in
    rw (ne, words_at-put n (sp + 4) a value mem (omega arith)) refl

-- `reverse xs ++ ys`.
abbrev pub reverse_onto : List ℕ → List ℕ → List ℕ
reverse_onto [] ys = ys
reverse_onto (x ∷ xs) ys = reverse_onto xs (x ∷ ys)

-- The state after pushing, with no wrap-around.
push_down :
    (value sp : ℕ) (mem : Memory)
    → 4 ≤ sp
    → sp < word
    → push value (sp, mem) ≡ (sp - 4, put mem (sp - 4) value)
push_down value sp mem low high i = (e i, put mem (e i) value)
  where
    e : (sp + word - 4) % word ≡ sp - 4
    e = omega arith

top_words :
    (value sp m : ℕ) (mem : Memory)
    → 4 ≤ sp
    → words_at (suc m) (sp - 4) (put mem (sp - 4) value) ≡ value ∷ words_at m sp mem
top_words value sp m mem low =
    let back : sp - 4 + 4 ≡ sp = omega arith in
    rw (==_self (sp - 4), back)
      (ap (λ (ws : List ℕ). value ∷ ws) (words_at-put m sp (sp - 4) value mem (omega arith)))

push_all-words :
    (values : List ℕ) (sp n m : ℕ) (mem : Memory)
    → n ≡ length values + m
    → 4 * length values ≤ sp
    → sp < word
    → let (sp', mem') = push_all values (sp, mem) in
      (sp' ≡ sp - 4 * length values)
      × (words_at n sp' mem' ≡ reverse_onto values (words_at m sp mem))
unfolding push_all
push_all-words [] sp n m mem e low high =
    (omega arith, ap (λ (k : ℕ). words_at k sp mem) (omega arith))
push_all-words (value ∷ values) sp n m mem e low high =
    let mem1 : Memory = put mem (sp - 4) value in
    let (moved, read) =
      push_all-words values (sp - 4) n (suc m) mem1 (omega arith) (omega arith) (omega arith) in
    subst
      (λ (s : ℕ × Memory).
        let (sp', mem') = push_all values s in
        (sp' ≡ sp - 4 * length (value ∷ values))
        × (words_at n sp' mem' ≡ reverse_onto values (value ∷ words_at m sp mem)))
      (sym (push_down value sp mem (omega arith) high))
      (
        moved ∙ omega arith,
        read ∙ ap (reverse_onto values) (top_words value sp m mem (omega arith)),
      )

-- With 68 bytes of room, `task_init_stack` returns the address of 17 words which are, from there
-- upwards, what PendSV_Handler loads into R4 to R11 and LR and what the exception return then loads
-- into R0 to R3, R12, LR, PC and xPSR.
pub task_init_stack-words :
    (stack_top entry : ℕ) (arg : Ptr) (exit_func : ℕ) (mem : Memory)
    → 68 ≤ stack_top
    → stack_top < word
    → let (sp, mem') = task_init_stack stack_top entry arg exit_func mem in
      (sp ≡ stack_top - 68)
      × (words_at 17 sp mem'
          ≡ 0
            ∷ 0
            ∷ 0
            ∷ 0
            ∷ 0
            ∷ 0
            ∷ 0
            ∷ 0
            ∷ exc_return_thread_psp
            ∷ address_of arg
            ∷ 0
            ∷ 0
            ∷ 0
            ∷ 0
            ∷ exit_func
            ∷ entry
            ∷ 0x01000000
            ∷ [])
unfolding task_init_stack
task_init_stack-words stack_top entry arg exit_func mem low high =
    push_all-words (first_frame entry arg exit_func) stack_top 17 0 mem refl (omega arith) high
