-- ===== src/Sched/Walk/Laws.antt =====
-- A walk wakes the selected tasks in list order and leaves the others on the blocked list.
use helix_rt.Prelude.{
  ℕ, zero, suc, ◌≤◌, ◌<◌, ◌+◌, ◌%◌, Ptr, ◌≡◌, refl, sym, ap, subst, ◌∙◌, List, [], ◌∷◌, ◌++◌, Bool,
  true, false, none, some, has, has-append, length, if◌then◌else◌, arith, either,
}
use helix_rt.Config.{word}
use helix_rt.Task.{Tcb, Tcbs, Code, BlockReason}
use helix_rt.Sched.{Sched, update_tcb}
use helix_rt.Sched.Links.{append_ready, ready_insert_tail, blocked_remove}
use helix_rt.Sched.Block.{release, woken_tcb, waits_for, unblock_waiters}
use helix_rt.Sched.Tick.{expires, expiry_result, expire_task, expire_waits}
use helix_rt.Sched.Valid.{IsValid}
use helix_rt.Sched.Valid.Insert.{append_queue}
use helix_rt.Sched.Block.Laws.{release-IsValid}
use helix_rt.Sched.Walk.{
  data_of, head_of, next-eq_of_Chain, absent_in_front, absent_behind, remove_middle, chosen, others,
  append_all, walk, Agrees, Agrees-tail, Agrees-release,
}

append_one : (kept : List ℕ) (t : ℕ) (ts : List ℕ) → (kept ++ (t ∷ [])) ++ ts ≡ kept ++ (t ∷ ts)
append_one [] t ts = refl
append_one (x ∷ kept) t ts = ap (λ (l : List ℕ). x ∷ l) (append_one kept t ts)

-- What the walk meets at its next task.
module _ (s : Sched) (queues : ℕ → List ℕ) (kept : List ℕ) (t : ℕ) (ts : List ℕ)
    (v : IsValid s queues (kept ++ (t ∷ ts))) where
  pub next_in_walk : (s.tasks t).next ≡ head_of ts
  next_in_walk = next-eq_of_Chain s.tasks kept none s.blocked_head t ts v.wait_list.chain

  pub not_again : has t ts ≡ false
  not_again = absent_behind kept t ts v.wait_list.distinct

  pub release_middle-IsValid :
      (p : ℕ) (result : Code)
      → (s.tasks t).priority ≡ p
      → IsValid (release t result s) (append_queue queues p t) (kept ++ ts)
  release_middle-IsValid p result prio =
      subst (IsValid (release t result s) (append_queue queues p t))
        (remove_middle kept t ts (absent_in_front kept t ts v.wait_list.distinct))
        (release-IsValid s queues (kept ++ (t ∷ ts)) t p v
          (ground (arith, has-append t kept (t ∷ ts))) prio result)

  pub pass-IsValid : IsValid s queues ((kept ++ (t ∷ [])) ++ ts)
  pass-IsValid = subst (IsValid s queues) (sym (append_one kept t ts)) v

module _ (select : Tcb → Bool) (result : Tcb → Code)
    (blind : (b : Tcb) → select (data_of b) ≡ select b) (u : Tcbs) where
  -- The selected tasks go to the ends of their ready lists, the others stay.
  pub walk-IsValid :
      (ts kept : List ℕ) (queues : ℕ → List ℕ) (s : Sched)
      → Agrees s.tasks u ts
      → IsValid s queues (kept ++ ts)
      → IsValid
          (walk select result ts s)
          (append_all u (chosen select u ts) queues)
          (kept ++ others select u ts)
  walk-IsValid [] kept queues s agree v = v
  walk-IsValid (t ∷ ts) kept queues s agree v =
      subst (λ (b : Bool). Walked b (select (u t))) (sym same)
        (both (select (u t))
          (walk-IsValid ts kept (append_queue queues (u t).priority t)
            (release t (result (s.tasks t)) s)
            (Agrees-release u t ts (result (s.tasks t)) s (not_again s queues kept t ts v) agree)
            (release_middle-IsValid s queues kept t ts v (u t).priority (result (s.tasks t))
              (ap (λ (b : Tcb). b.priority) here)))
          (subst (IsValid (walk select result ts s) (append_all u (chosen select u ts) queues))
            (append_one kept t (others select u ts))
            (walk-IsValid ts (kept ++ (t ∷ [])) queues s (Agrees-tail s.tasks u t ts agree)
              (pass-IsValid s queues kept t ts v))))
    where
      here : data_of (s.tasks t) ≡ data_of (u t)
      here = agree t (ground arith)

      same : select (s.tasks t) ≡ select (u t)
      same = sym (blind (s.tasks t)) ∙ ap select here ∙ blind (u t)

      -- The claim, for the outcomes of the test before and after.
      Walked : Bool → Bool → Type 0
      Walked now before =
          IsValid (walk select result ts (if now then release t (result (s.tasks t)) s else s))
            (append_all u (if before then t ∷ chosen select u ts else chosen select u ts) queues)
            (kept ++ (if before then others select u ts else t ∷ others select u ts))

      both : (b : Bool) → Walked true true → Walked false false → Walked b b
      both true x y = x
      both false x y = y

append_ready-tick :
    (head : Ptr) (t prio : ℕ) (s : Sched) → (append_ready head t prio s).tick_count ≡ s.tick_count
unfolding append_ready
append_ready-tick none t prio s = refl
append_ready-tick (some h) t prio s = refl

release-tick : (t : ℕ) (result : Code) (s : Sched) → (release t result s).tick_count ≡ s.tick_count
unfolding release ready_insert_tail blocked_remove
release-tick t result s =
    let s1 : Sched = update_tcb t (woken_tcb result) (blocked_remove t s) in
    append_ready-tick (s1.ready_list (s1.tasks t).priority) t (s1.tasks t).priority _

-- The loop of `scheduler_tick` is such a walk.
pub expire_waits-eq-walk :
    (now fuel : ℕ) (ts kept : List ℕ) (queues : ℕ → List ℕ) (s : Sched)
    → s.tick_count ≡ now
    → length ts ≤ fuel
    → IsValid s queues (kept ++ ts)
    → expire_waits fuel (head_of ts) s ≡ walk (expires now) expiry_result ts s
unfolding expire_waits
expire_waits-eq-walk now zero [] kept queues s tick enough v = refl
expire_waits-eq-walk now zero (t ∷ ts) kept queues s tick enough v = absurd (omega arith)
expire_waits-eq-walk now (suc fuel) [] kept queues s tick enough v = refl
expire_waits-eq-walk now (suc fuel) (t ∷ ts) kept queues s tick enough v =
    ap (λ (p : Ptr). expire_waits fuel p (expire_task t s)) (next_in_walk s queues kept t ts v)
    ∙ ap (expire_waits fuel (head_of ts)) stepped
    ∙ either
        (λ (s1 : Sched). expire_waits fuel (head_of ts) s1 ≡ walk (expires now) expiry_result ts s1)
        woken s (expires now (s.tasks t))
        (expire_waits-eq-walk now fuel ts kept (append_queue queues (s.tasks t).priority t) woken
          (release-tick t (expiry_result (s.tasks t)) s ∙ tick) (omega arith)
          (release_middle-IsValid s queues kept t ts v (s.tasks t).priority
            (expiry_result (s.tasks t)) refl))
        (expire_waits-eq-walk now fuel ts (kept ++ (t ∷ [])) queues s tick (omega arith)
          (pass-IsValid s queues kept t ts v))
  where
    woken : Sched
    woken = release t (expiry_result (s.tasks t)) s

    stepped : expire_task t s ≡ (if expires now (s.tasks t) then woken else s)
    stepped =
        unfold expire_task in
        ap (λ (n : ℕ). if expires n (s.tasks t) then release t (expiry_result (s.tasks t)) s else s)
          tick

-- The loop of `scheduler_unblock_all` is one too, and it counts the tasks that it wakes.
module _ (reason : BlockReason) (object : Ptr) (result : Code) (u : Tcbs) where
  -- The test, by its outcomes before and after the walk so far.
  Unblocked : ℕ → List ℕ → ℕ → Sched → ℕ → Bool → Bool → Type 0
  Unblocked fuel ts n s t now before =
      unblock_waiters fuel reason object result (head_of ts)
        (if now then ((n + 1) % word, release t result s) else (n, s))
      ≡ (
        n
            + length (
                if before
                then t ∷ chosen (waits_for reason object) u ts
                else chosen (waits_for reason object) u ts),
        walk (waits_for reason object) (λ b. result) ts (if now then release t result s else s),
      )

  no_more : (n : ℕ) → n ≡ n + 0
  no_more n = omega arith

  both-Unblocked :
      (fuel : ℕ) (ts : List ℕ) (n : ℕ) (s : Sched) (t : ℕ) (b : Bool)
      → Unblocked fuel ts n s t true true
      → Unblocked fuel ts n s t false false
      → Unblocked fuel ts n s t b b
  both-Unblocked fuel ts n s t true x y = x
  both-Unblocked fuel ts n s t false x y = y

  pub unblock_waiters-eq-walk :
      (fuel : ℕ) (ts kept : List ℕ) (queues : ℕ → List ℕ) (n : ℕ) (s : Sched)
      → Agrees s.tasks u ts
      → n + length ts < word
      → length ts ≤ fuel
      → IsValid s queues (kept ++ ts)
      → unblock_waiters fuel reason object result (head_of ts) (n, s) ≡ (
        n + length (chosen (waits_for reason object) u ts),
        walk (waits_for reason object) (λ b. result) ts s,
      )
  unfolding unblock_waiters Unblocked
  unblock_waiters-eq-walk zero [] kept queues n s agree fits enough v =
      ap (λ (m : ℕ). (m, s)) (no_more n)
  unblock_waiters-eq-walk zero (t ∷ ts) kept queues n s agree fits enough v = absurd (omega arith)
  unblock_waiters-eq-walk (suc fuel) [] kept queues n s agree fits enough v =
      ap (λ (m : ℕ). (m, s)) (no_more n)
  unblock_waiters-eq-walk (suc fuel) (t ∷ ts) kept queues n s agree fits enough v =
      ap
        (λ (p : Ptr). unblock_waiters fuel reason object result p (
          if waits_for reason object (s.tasks t)
          then ((n + 1) % word, release t result s)
          else (n, s)))
        (next_in_walk s queues kept t ts v)
      ∙ subst (λ (b : Bool). Unblocked fuel ts n s t b (waits_for reason object (u t))) (sym same)
          (both-Unblocked fuel ts n s t (waits_for reason object (u t))
            (ap
                (λ (m : ℕ).
                  unblock_waiters fuel reason object result (head_of ts) (m, release t result s))
                (omega arith)
              ∙ unblock_waiters-eq-walk fuel ts kept (append_queue queues (s.tasks t).priority t)
                  (n + 1) (release t result s)
                  (Agrees-release u t ts result s (not_again s queues kept t ts v) agree)
                  (omega arith) (omega arith)
                  (release_middle-IsValid s queues kept t ts v (s.tasks t).priority result refl)
              ∙ ap
                  (λ (m : ℕ).
                    (m, walk (waits_for reason object) (λ b. result) ts (release t result s)))
                  one_more)
            (unblock_waiters-eq-walk fuel ts (kept ++ (t ∷ [])) queues n s
              (Agrees-tail s.tasks u t ts agree) (omega arith) (omega arith)
              (pass-IsValid s queues kept t ts v)))
    where
      same : waits_for reason object (s.tasks t) ≡ waits_for reason object (u t)
      same = ap (waits_for reason object) (agree t (ground arith))

      one_more :
          n + 1 + length (chosen (waits_for reason object) u ts)
          ≡ n + suc (length (chosen (waits_for reason object) u ts))
      one_more = omega arith
