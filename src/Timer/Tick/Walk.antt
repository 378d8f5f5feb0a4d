-- ===== src/Timer/Tick/Walk.antt =====
-- The loop of timer_tick_isr along the list of active timers.
use helix_rt.Prelude.{
  ℕ, zero, suc, ◌≤◌, Ptr, ◌≡◌, refl, sym, ap, subst, ◌∙◌, inl, inr, List, [], ◌∷◌, ◌++◌, Bool, true,
  false, has, has-append, length, remove, ◌==◌, if◌then◌else◌, arith, Bool-cases, eq_of_==,
  length-le,
}
use helix_rt.Config.{word}
use helix_rt.Timer.{SwTimer, Timers, Callbacks, tick_timer, tick_timers, timer_tick_isr}
use helix_rt.Timer.List.{Store, Links, IsTimers}
use helix_rt.Sched.Walk.{head_of, absent_in_front, absent_behind, remove_middle}
use helix_rt.Timer.Tick.{
  SameCount, SameCount-trans, next_remaining, stays, survivors, readings, Ticked, tick_timer-Ticked,
}

-- The walk goes on where the list does.
head-eq_of_Links : (u : Store) (xs : List ℕ) (head : Ptr) → Links u xs head → head ≡ head_of xs
head-eq_of_Links u [] head c = c
head-eq_of_Links u (x ∷ xs) head c = c.0

next-eq_of_Links :
    (u : Store) (kept : List ℕ) (z : ℕ) (zs : List ℕ) (head : Ptr)
    → Links u (kept ++ (z ∷ zs)) head
    → (u z).next ≡ head_of zs
next-eq_of_Links u [] z zs head c = head-eq_of_Links u zs (u z).next c.1
next-eq_of_Links u (x ∷ kept) z zs head c = next-eq_of_Links u kept z zs (u x).next c.1

stays-eq : (b c : SwTimer) → SameCount b c → stays b ≡ stays c
stays-eq b c e = ground arith

next_remaining-eq : (b c : SwTimer) → SameCount b c → next_remaining b ≡ next_remaining c
next_remaining-eq b c e = ground arith

append_snoc : (xs ys : List ℕ) (z : ℕ) → xs ++ (z ∷ ys) ≡ (xs ++ (z ∷ [])) ++ ys
append_snoc [] ys z = refl
append_snoc (x ∷ xs) ys z = ap (λ (l : List ℕ). x ∷ l) (append_snoc xs ys z)

has_middle : (kept : List ℕ) (z : ℕ) (zs : List ℕ) → has z (kept ++ (z ∷ zs)) ≡ true
has_middle kept z zs = ground (arith, has-append z kept (z ∷ zs))

member_ne : (a z : ℕ) (zs : List ℕ) → has a zs ≡ true → has z zs ≡ false → (a == z) ≡ false
member_ne a z zs k out = elim (Bool-cases (a == z)) [
  | inl e ↦ absurd (ground (arith, ap (λ (x : ℕ). has x zs) (eq_of_== a z e)))
  | inr e ↦ e
]

-- After the timers `zs` have been handled, which stand behind `kept`.
record Handled (u : Store) (kept zs : List ℕ) (s s' : Timers) : Type 0 where
  list : IsTimers s' (kept ++ survivors u zs)
  remaining : (a : ℕ) → has a zs ≡ true → (s'.timers a).remaining_ticks ≡ next_remaining (u a)
  rest : (a : ℕ) → has a zs ≡ false → SameCount (s'.timers a) (s.timers a)

-- One timer, and then the others.
Handled-cons :
    (u : Store) (kept kept' zs : List ℕ) (z : ℕ) (s s1 s' : Timers) (xs : List ℕ)
    → Ticked z s s1 xs
    → SameCount (s.timers z) (u z)
    → has z zs ≡ false
    → kept' ++ survivors u zs ≡ kept ++ survivors u (z ∷ zs)
    → Handled u kept' zs s1 s'
    → Handled u kept (z ∷ zs) s s'
Handled-cons u kept kept' zs z s s1 s' xs t same out e h = record {
  list = subst (IsTimers s') e h.list;
  remaining = λ a k. own a k;
  rest = λ a k.
      SameCount-trans (s'.timers a) (s1.timers a) (s.timers a) (h.rest a (ground arith))
        (t.rest a (ground arith));
}
  where
    own : (a : ℕ) → has a (z ∷ zs) ≡ true → (s'.timers a).remaining_ticks ≡ next_remaining (u a)
    own a k = elim (Bool-cases (a == z)) [
      | inl q ↦
          subst (λ (x : ℕ). (s'.timers x).remaining_ticks ≡ next_remaining (u x))
            (sym (eq_of_== a z q))
            ((h.rest z out).0 ∙ t.own ∙ next_remaining-eq (s.timers z) (u z) same)
      | inr q ↦ h.remaining a (ground arith)
    ]

module _ (run : Callbacks) (inert : (cb arg : Ptr) (s : Timers) → run cb arg s ≡ s) where
  tick_timers-Handled :
      (u : Store) (zs kept : List ℕ) (fuel : ℕ) (iter : Ptr) (s : Timers)
      → iter ≡ head_of zs
      → length zs ≤ fuel
      → IsTimers s (kept ++ zs)
      → ((a : ℕ) → has a zs ≡ true → SameCount (s.timers a) (u a))
      → Handled u kept zs s (tick_timers run fuel iter s)
  unfolding tick_timers
  tick_timers-Handled u [] kept zero iter s e enough v same = record {
    list = v;
    remaining = λ a k. absurd (ground arith);
    rest = λ a k. (refl, refl, refl);
  }
  tick_timers-Handled u [] kept (suc fuel) iter s e enough v same =
      subst (λ (o : Ptr). Handled u kept [] s (tick_timers run (suc fuel) o s)) (sym e)
        (record {
          list = v;
          remaining = λ a k. absurd (ground arith);
          rest = λ a k. (refl, refl, refl);
        })
  tick_timers-Handled u (z ∷ zs) kept zero iter s e enough v same = absurd (omega arith)
  tick_timers-Handled u (z ∷ zs) kept (suc fuel) iter s e enough v same =
      subst (λ (o : Ptr). Handled u kept (z ∷ zs) s (tick_timers run (suc fuel) o s)) (sym e)
        (elim (Bool-cases (stays (u z))) [
          | inl k ↦
              Handled-cons u kept (kept ++ (z ∷ [])) zs z s s1
                (tick_timers run fuel (s.timers z).next s1) (kept ++ (z ∷ zs)) t here out
                (sym (append_snoc kept (survivors u zs) z)
                  ∙ ap (λ (b : Bool). kept ++ (if b then z ∷ survivors u zs else survivors u zs))
                      (sym k))
                (tick_timers-Handled u zs (kept ++ (z ∷ [])) fuel (s.timers z).next s1 next
                  (omega arith) (subst (IsTimers s1) (left true k ∙ append_snoc kept zs z) t.list)
                  agrees)
          | inr k ↦
              Handled-cons u kept kept zs z s s1 (tick_timers run fuel (s.timers z).next s1)
                (kept ++ (z ∷ zs)) t here out
                (ap (λ (b : Bool). kept ++ (if b then z ∷ survivors u zs else survivors u zs))
                  (sym k))
                (tick_timers-Handled u zs kept fuel (s.timers z).next s1 next (omega arith)
                  (subst (IsTimers s1) (left false k ∙ remove_middle kept z zs front) t.list)
                  agrees)
        ])
    where
      s1 : Timers
      s1 = tick_timer run z s

      t : Ticked z s s1 (kept ++ (z ∷ zs))
      t = tick_timer-Ticked run inert z s (kept ++ (z ∷ zs)) v (has_middle kept z zs)

      here : SameCount (s.timers z) (u z)
      here = same z (ground arith)

      out : has z zs ≡ false
      out = absent_behind kept z zs v.distinct

      front : has z kept ≡ false
      front = absent_in_front kept z zs v.distinct

      next : (s.timers z).next ≡ head_of zs
      next = next-eq_of_Links s.timers kept z zs s.timer_list v.linked

      left :
          (b : Bool)
          → stays (u z) ≡ b
          → (if stays (s.timers z) then kept ++ (z ∷ zs) else remove z (kept ++ (z ∷ zs)))
            ≡ (if b then kept ++ (z ∷ zs) else remove z (kept ++ (z ∷ zs)))
      left b k =
          ap (λ (c : Bool). if c then kept ++ (z ∷ zs) else remove z (kept ++ (z ∷ zs)))
            (stays-eq (s.timers z) (u z) here ∙ k)

      agrees : (a : ℕ) → has a zs ≡ true → SameCount (s1.timers a) (u a)
      agrees a k =
          SameCount-trans (s1.timers a) (s.timers a) (u a) (t.rest a (member_ne a z zs k out))
            (same a (ground arith))

  readings-eq :
      (f g : SwTimer → ℕ) (u w : Store) (xs : List ℕ)
      → ((a : ℕ) → has a xs ≡ true → f (u a) ≡ g (w a))
      → readings f u xs ≡ readings g w xs
  readings-eq f g u w [] h = refl
  readings-eq f g u w (x ∷ xs) h =
      ap (λ (n : ℕ). n ∷ readings f u xs) (h x (ground arith))
      ∙ ap (λ (l : List ℕ). g (w x) ∷ l) (readings-eq f g u w xs (λ a k. h a (ground arith)))

  -- On a valid list of timers, if the callbacks leave the timers alone, a tick takes the one-shot
  -- timers whose countdown ends off the list and no others, and the timers that were on the list have
  -- counted down by one, a periodic one whose countdown ends being loaded with its period again.
  pub timer_tick_isr-ticks :
      (s : Timers) (xs : List ℕ)
      → IsTimers s xs
      → IsTimers (timer_tick_isr run s) (survivors s.timers xs)
        × (readings (λ b. b.remaining_ticks) (timer_tick_isr run s).timers xs
            ≡ readings next_remaining s.timers xs)
  unfolding timer_tick_isr
  timer_tick_isr-ticks s xs v =
      let h =
        tick_timers-Handled s.timers xs [] word s.timer_list s
          (head-eq_of_Links s.timers xs s.timer_list v.linked)
          (length-le word xs v.distinct v.small) v (λ a k. (refl, refl, refl)) in
      (
        h.list,
        readings-eq (λ b. b.remaining_ticks) next_remaining (timer_tick_isr run s).timers s.timers
            xs h.remaining,
      )
