-- ===== src/Timer/Tick.antt =====
-- What timer_tick_isr does to one timer, with callbacks that leave the timers alone.
pub mod Walk
use helix_rt.Prelude.{
  ℕ, zero, suc, ◌+◌, ◌-◌, ◌<◌, ◌≤◌, Ptr, ◌≡◌, refl, sym, ap, subst, ◌∙◌, inl, inr, List, [], ◌∷◌,
  ◌++◌, Bool, true, false, not, ◌&&◌, none, some, has, has-append, Distinct, length, remove, ◌==◌,
  ==_self, ltb, either, if◌then◌else◌, arith, Bool-cases, Option-cases, eq_of_==, length-le,
}
use helix_rt.Config.{word}
use helix_rt.Task.{put}
use helix_rt.Timer.{
  SwTimer, Timers, Callbacks, update_timer, timer_unlink, remove_from, timer_list_remove,
  count_down, expire_timer, tick_timer, tick_timers, timer_tick_isr,
}
use helix_rt.Timer.List.{Store, Links, IsTimers, Links-frame, timer_list_remove-IsTimers}
use helix_rt.Sched.Walk.{head_of, absent_in_front, absent_behind, remove_middle}

-- The countdown fields of two blocks agree.
abbrev SameCount : SwTimer → SwTimer → Type 0
SameCount b c =
    (b.remaining_ticks ≡ c.remaining_ticks)
    × (b.period_ticks ≡ c.period_ticks)
    × (b.periodic ≡ c.periodic)

SameCount-trans : (b c d : SwTimer) → SameCount b c → SameCount c d → SameCount b d
SameCount-trans b c d x y = (x.0 ∙ y.0, x.1 ∙ y.1, x.2 ∙ y.2)

-- Unlinking leaves the countdowns alone.
timer_unlink-SameCount :
    (prev : Ptr) (t a : ℕ) (s : Timers) → SameCount ((timer_unlink prev t s).timers a) (s.timers a)
unfolding timer_unlink
timer_unlink-SameCount none t a s = (ground arith, ground arith, ground arith)
timer_unlink-SameCount (some p) t a s = (ground arith, ground arith, ground arith)

remove_from-SameCount :
    (fuel : ℕ) (prev iter : Ptr) (t a : ℕ) (s : Timers)
    → SameCount ((remove_from fuel prev iter t s).timers a) (s.timers a)
unfolding remove_from
remove_from-SameCount zero prev iter t a s = (refl, refl, refl)
remove_from-SameCount (suc fuel) prev none t a s = (refl, refl, refl)
remove_from-SameCount (suc fuel) prev (some i) t a s =
    either (λ (z : Timers). SameCount (z.timers a) (s.timers a)) (timer_unlink prev i s)
      (remove_from fuel (some i) (s.timers i).next t s) (i == t) (timer_unlink-SameCount prev i a s)
      (remove_from-SameCount fuel (some i) (s.timers i).next t a s)

-- Assignments to other fields than the link and `active` keep the list.
update-IsTimers :
    (s : Timers) (xs : List ℕ) (t : ℕ) (b : SwTimer)
    → b.next ≡ (s.timers t).next
    → b.active ≡ (s.timers t).active
    → IsTimers s xs
    → IsTimers (update_timer t (λ x. b) s) xs
update-IsTimers s xs t b e f v = record {
  linked =
      Links-frame s.timers (update_timer t (λ x. b) s).timers xs s.timer_list (λ a h. next_kept a)
        v.linked;
  distinct = v.distinct;
  small = v.small;
  listed = λ a. active_kept a ∙ v.listed a;
}
  where
    next_kept : (a : ℕ) → (put s.timers t b a).next ≡ (s.timers a).next
    next_kept a = ground arith

    active_kept : (a : ℕ) → (put s.timers t b a).active ≡ (s.timers a).active
    active_kept a = ground arith

put-SameCount :
    (u : Store) (t a : ℕ) (b : SwTimer) → (a == t) ≡ false → SameCount (put u t b a) (u a)
put-SameCount u t a b ne = (ground arith, ground arith, ground arith)

-- What a tick makes of a block's countdown, and whether its timer stays active.
abbrev pub counted : SwTimer → ℕ
counted b = b.remaining_ticks - 1

abbrev pub next_remaining : SwTimer → ℕ
next_remaining b =
    if counted b == 0 then (if b.periodic == 0 then 0 else b.period_ticks) else counted b

abbrev pub stays : SwTimer → Bool
stays b = not ((counted b == 0) && (b.periodic == 0))

abbrev pub survivors : Store → List ℕ → List ℕ
survivors u [] = []
survivors u (x ∷ xs) = let rest = survivors u xs in if stays (u x) then x ∷ rest else rest

-- A field of each timer of a list.
abbrev pub readings : (SwTimer → ℕ) → Store → List ℕ → List ℕ
readings f u [] = []
readings f u (x ∷ xs) = f (u x) ∷ readings f u xs

-- How the two tests of a tick come out.
expired_once :
    (b : SwTimer)
    → (counted b == 0) ≡ true
    → (b.periodic == 0) ≡ true
    → (stays b ≡ false) × (next_remaining b ≡ 0)
expired_once b e f = (ground arith, ground arith)

expired_again :
    (b : SwTimer)
    → (counted b == 0) ≡ true
    → (b.periodic == 0) ≡ false
    → (stays b ≡ true) × (next_remaining b ≡ b.period_ticks)
expired_again b e f = (ground arith, ground arith)

running_on :
    (b : SwTimer) → (counted b == 0) ≡ false → (stays b ≡ true) × (next_remaining b ≡ counted b)
running_on b e = (ground arith, ground arith)

-- The block whose countdown has gone down, and the one whose countdown starts again.
abbrev down : SwTimer → SwTimer
down b = record b { remaining_ticks = b.remaining_ticks - 1 }

abbrev again : SwTimer → SwTimer
again b = record b { remaining_ticks = b.period_ticks }

put_own : (u : Store) (t : ℕ) (b : SwTimer) → put u t b t ≡ b
put_own u t b = rw (==_self t) refl

-- After `count_down`.
record Counted (t : ℕ) (s s1 : Timers) (xs : List ℕ) : Type 0 where
  list : IsTimers s1 xs
  remaining : (s1.timers t).remaining_ticks ≡ counted (s.timers t)
  period : (s1.timers t).period_ticks ≡ (s.timers t).period_ticks
  periodic : (s1.timers t).periodic ≡ (s.timers t).periodic
  rest : (a : ℕ) → (a == t) ≡ false → SameCount (s1.timers a) (s.timers a)

count_down-Counted :
    (t : ℕ) (s : Timers) (xs : List ℕ) → IsTimers s xs → Counted t s (count_down t s) xs
unfolding count_down
count_down-Counted t s xs v = elim (Bool-cases (ltb 0 (s.timers t).remaining_ticks)) [
  | inl e ↦
      subst (λ (b : Bool). Counted t s (if b then update_timer t down s else s) xs) (sym e)
        (record {
          list = update-IsTimers s xs t (down (s.timers t)) refl refl v;
          remaining =
              ap (λ (b : SwTimer). b.remaining_ticks) (put_own s.timers t (down (s.timers t)));
          period = ap (λ (b : SwTimer). b.period_ticks) (put_own s.timers t (down (s.timers t)));
          periodic = ap (λ (b : SwTimer). b.periodic) (put_own s.timers t (down (s.timers t)));
          rest = λ a h. put-SameCount s.timers t a (down (s.timers t)) h;
        })
  | inr e ↦
      subst (λ (b : Bool). Counted t s (if b then update_timer t down s else s) xs) (sym e)
        (record {
          list = v;
          remaining = zero_stays (s.timers t).remaining_ticks e;
          period = refl;
          periodic = refl;
          rest = λ a h. (refl, refl, refl);
        })
]
  where
    zero_stays : (n : ℕ) → ltb 0 n ≡ false → n ≡ n - 1
    zero_stays n h = ground arith

-- One timer's tick on a list that holds it.
record Ticked (t : ℕ) (s s' : Timers) (xs : List ℕ) : Type 0 where
  list : IsTimers s' (if stays (s.timers t) then xs else remove t xs)
  own : (s'.timers t).remaining_ticks ≡ next_remaining (s.timers t)
  rest : (a : ℕ) → (a == t) ≡ false → SameCount (s'.timers a) (s.timers a)

module _ (run : Callbacks) (inert : (cb arg : Ptr) (s : Timers) → run cb arg s ≡ s) where
  -- The expiry of a timer whose countdown has reached 0.
  expire_timer-Ticked :
      (t : ℕ) (s s1 : Timers) (xs : List ℕ)
      → Counted t s s1 xs
      → has t xs ≡ true
      → (counted (s.timers t) == 0) ≡ true
      → Ticked t s (expire_timer run t s1) xs
  unfolding expire_timer timer_list_remove
  expire_timer-Ticked t s s1 xs c h zero_now =
      subst (λ (z : Timers). Ticked t s z xs)
        (sym (inert (s1.timers t).callback (s1.timers t).arg _))
        (elim (Bool-cases ((s1.timers t).periodic == 0)) [
          | inl e ↦
              subst
                (λ (b : Bool).
                  Ticked t s (if b then timer_list_remove t s1 else update_timer t again s1) xs)
                (sym e) (once e)
          | inr e ↦
              subst
                (λ (b : Bool).
                  Ticked t s (if b then timer_list_remove t s1 else update_timer t again s1) xs)
                (sym e) (reload e)
        ])
    where
      once : ((s1.timers t).periodic == 0) ≡ true → Ticked t s (timer_list_remove t s1) xs
      once e =
          let (gone, after) =
            expired_once (s.timers t) zero_now (ap (λ (n : ℕ). n == 0) (sym c.periodic) ∙ e) in
          record {
            list =
                subst
                  (λ (b : Bool). IsTimers (timer_list_remove t s1) (if b then xs else remove t xs))
                  (sym gone) (timer_list_remove-IsTimers s1 xs t c.list h);
            own =
                (remove_from-SameCount word none s1.timer_list t t s1).0
                ∙ c.remaining
                ∙ eq_of_== (counted (s.timers t)) 0 zero_now
                ∙ sym after;
            rest = λ a ne.
                SameCount-trans ((timer_list_remove t s1).timers a) (s1.timers a) (s.timers a)
                  (remove_from-SameCount word none s1.timer_list t a s1) (c.rest a ne);
          }

      reload : ((s1.timers t).periodic == 0) ≡ false → Ticked t s (update_timer t again s1) xs
      reload e =
          let (kept, after) =
            expired_again (s.timers t) zero_now (ap (λ (n : ℕ). n == 0) (sym c.periodic) ∙ e) in
          record {
            list =
                subst
                  (λ (b : Bool). IsTimers (update_timer t again s1) (if b then xs else remove t xs))
                  (sym kept) (update-IsTimers s1 xs t (again (s1.timers t)) refl refl c.list);
            own =
                ap (λ (b : SwTimer). b.remaining_ticks) (put_own s1.timers t (again (s1.timers t)))
                ∙ c.period
                ∙ sym after;
            rest = λ a ne.
                SameCount-trans ((update_timer t again s1).timers a) (s1.timers a) (s.timers a)
                  (put-SameCount s1.timers t a (again (s1.timers t)) ne) (c.rest a ne);
          }

  tick_timer-Ticked :
      (t : ℕ) (s : Timers) (xs : List ℕ)
      → IsTimers s xs
      → has t xs ≡ true
      → Ticked t s (tick_timer run t s) xs
  unfolding tick_timer
  tick_timer-Ticked t s xs v h = elim (Bool-cases ((s1.timers t).remaining_ticks == 0)) [
    | inl e ↦
        subst (λ (b : Bool). Ticked t s (if b then expire_timer run t s1 else s1) xs) (sym e)
          (expire_timer-Ticked t s s1 xs c h (ap (λ (n : ℕ). n == 0) (sym c.remaining) ∙ e))
    | inr e ↦
        let (kept, after) =
          running_on (s.timers t) (ap (λ (n : ℕ). n == 0) (sym c.remaining) ∙ e) in
        subst (λ (b : Bool). Ticked t s (if b then expire_timer run t s1 else s1) xs) (sym e)
          (record {
            list =
                subst (λ (b : Bool). IsTimers s1 (if b then xs else remove t xs)) (sym kept) c.list;
            own = c.remaining ∙ sym after;
            rest = c.rest;
          })
  ]
    where
      s1 : Timers
      s1 = count_down t s

      c : Counted t s s1 xs
      c = count_down-Counted t s xs v
