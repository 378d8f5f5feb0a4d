-- ===== src/Timer/Laws.antt =====
-- timer_start, timer_stop and timer_is_active on the list of active timers.
use helix_rt.Prelude.{
  Ptr, ℕ, ◌<◌, ◌≡◌, ◌≢◌, refl, sym, ap, subst, ◌∙◌, inl, inr, List, ◌∷◌, Bool, true, false, ◌||◌,
  none, some, has, remove, remove_absent, ◌==◌, is_null, if◌then◌else◌, arith, Bool-cases,
  has-remove_self,
}
use helix_rt.Config.{word}
use helix_rt.Task.{ok, err_param}
use helix_rt.Timer.{
  SwTimer, Timers, update_timer, timer_list_remove, timer_list_add, timer_start, timer_stop,
  remove_if_active,
}
use helix_rt.Timer.List.{Links, IsTimers, Links-frame, timer_list_remove-IsTimers}

module _ (s : Timers) (xs : List ℕ) (t : ℕ) (v : IsTimers s xs) where
  -- Whether the timer was active or not, it is off the list.
  remove_if_active-IsTimers : IsTimers (remove_if_active t s) (remove t xs)
  remove_if_active-IsTimers = elim (Bool-cases (has t xs)) [
    | inl h ↦
        subst (λ (b : Bool). IsTimers (if b then s else timer_list_remove t s) (remove t xs))
          (sym (running h)) (timer_list_remove-IsTimers s xs t v h)
    | inr h ↦
        subst (λ (b : Bool). IsTimers (if b then s else timer_list_remove t s) (remove t xs))
          (sym (idle h)) (subst (IsTimers s) (sym (remove_absent t xs h)) v)
  ]
    where
      running : has t xs ≡ true → ((s.timers t).active == 0) ≡ false
      running h = ground (arith, v.listed t)

      idle : has t xs ≡ false → ((s.timers t).active == 0) ≡ true
      idle h = ground (arith, v.listed t)

  -- Stopping a timer succeeds and takes it off the list of active timers, whether it was on it or not.
  pub timer_stop-IsTimers :
      (s' : Timers) × (timer_stop (some t) s ≡ (ok, s')) × IsTimers s' (remove t xs)
  unfolding timer_stop
  timer_stop-IsTimers = (remove_if_active t s, refl, remove_if_active-IsTimers)

-- Putting an inactive timer on the list, after other fields of it have been set.
module _ (s : Timers) (xs : List ℕ) (t : ℕ) (b : SwTimer) where
  abbrev added : Timers
  added = timer_list_add t (update_timer t (λ x. b) s)

  added-next :
      (a : ℕ) → (added.timers a).next ≡ (if a == t then s.timer_list else (s.timers a).next)
  unfolding timer_list_add
  added-next a = ground arith

  added-active : (a : ℕ) → (added.timers a).active ≡ (if a == t then 1 else (s.timers a).active)
  unfolding timer_list_add
  added-active a = ground arith

  added-fields :
      ((added.timers t).remaining_ticks ≡ b.remaining_ticks)
      × ((added.timers t).period_ticks ≡ b.period_ticks)
      × ((added.timers t).periodic ≡ b.periodic)
  unfolding timer_list_add
  added-fields = (ground arith, ground arith, ground arith)

  added-IsTimers : IsTimers s xs → has t xs ≡ false → t < word → IsTimers added (t ∷ xs)
  unfolding timer_list_add
  added-IsTimers v out small = record {
    linked = (
      refl,
      subst (Links added.timers xs) (sym (added-next t ∙ at_t)) (
          Links-frame s.timers added.timers xs s.timer_list (λ a h. ground (arith, added-next a))
            v.linked),
    );
    distinct = (out, v.distinct);
    small = λ a k. ground (arith, v.small a);
    listed = λ a. ground (arith, added-active a, v.listed a);
  }
    where
      at_t : (if t == t then s.timer_list else (s.timers t).next) ≡ s.timer_list
      at_t = ground arith

-- On a valid list of timers, starting one that has a callback, with a positive period, succeeds, puts
-- it at the front of the list, on which it then stands once, and loads its countdown with the period.
pub timer_start-IsTimers :
    (s : Timers) (xs : List ℕ) (t period periodic : ℕ)
    → IsTimers s xs
    → t < word
    → (s.timers t).callback ≢ none
    → period ≢ 0
    → (s' : Timers) × (timer_start (some t) period periodic s ≡ (ok, s'))
      × IsTimers s' (t ∷ remove t xs)
      × ((s'.timers t).remaining_ticks ≡ period)
      × ((s'.timers t).period_ticks ≡ period)
      × ((s'.timers t).periodic ≡ (if periodic == 0 then 0 else 1))
unfolding timer_start
timer_start-IsTimers s xs t period periodic v small has_callback nonzero = (
  stored,
  ap (λ (b : Bool). if b then (err_param, s) else (ok, stored))
      (accepted (s.timers t).callback has_callback),
  added-IsTimers stopped (remove t xs) t block (remove_if_active-IsTimers s xs t v)
      (has-remove_self t xs v.distinct) small,
  fields.0,
  fields.1,
  fields.2,
)
  where
    stopped : Timers
    stopped = remove_if_active t s

    block : SwTimer
    block = record (stopped.timers t) {
      period_ticks = period;
      remaining_ticks = period;
      periodic = (if periodic == 0 then 0 else 1);
    }

    accepted : (cb : Ptr) → cb ≢ none → (is_null cb || period == 0) ≡ false
    accepted none h = absurd (h refl)
    accepted (some a) h = ground arith

    stored : Timers
    stored = added stopped (remove t xs) t block

    fields :
        ((stored.timers t).remaining_ticks ≡ period)
        × ((stored.timers t).period_ticks ≡ period)
        × ((stored.timers t).periodic ≡ (if periodic == 0 then 0 else 1))
    fields = added-fields stopped (remove t xs) t block
