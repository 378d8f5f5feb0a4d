-- ===== src/Timer/List.antt =====
-- The list of active timers, and what the unlinking loop of kernel/timer.c leaves of it.
use helix_rt.Prelude.{
  ℕ, zero, suc, ◌<◌, Ptr, ◌≡◌, refl, sym, ap, subst, ◌∙◌, inl, inr, List, [], ◌∷◌, ◌++◌, true,
  false, none, some, has, has-append, Distinct, length, remove, ◌==◌, ==_self, if◌then◌else◌, arith,
  Bool-cases, eq_of_==, has-remove_self, has-remove_ne, has_of_has-remove, Distinct-remove,
  length-le,
}
use helix_rt.Config.{word}
use helix_rt.Timer.{SwTimer, Timers, timer_unlink, remove_from, timer_list_remove}
use helix_rt.Sched.Walk.{absent_in_front, remove_middle}

abbrev pub Store : Type 0
Store = ℕ → SwTimer

-- From `head` the links lead through `xs` to NULL.
abbrev pub Links : Store → List ℕ → Ptr → Type 0
Links t [] head = head ≡ none
Links t (x ∷ xs) head = (head ≡ some x) × Links t xs (t x).next

-- The list of the active timers is `xs`: it is well linked, holds no timer twice, and the timers on it
-- are just those whose `active` is set, which is 1.
pub record IsTimers (s : Timers) (xs : List ℕ) : Type 0 where
  pub linked : Links s.timers xs s.timer_list
  pub distinct : Distinct xs
  pub small : (a : ℕ) → has a xs ≡ true → a < word
  pub listed : (a : ℕ) → (s.timers a).active ≡ (if has a xs then 1 else 0)

pub Links-frame :
    (t u : Store) (xs : List ℕ) (head : Ptr)
    → ((a : ℕ) → has a xs ≡ true → (u a).next ≡ (t a).next)
    → Links t xs head
    → Links u xs head
Links-frame t u [] head same c = c
Links-frame t u (x ∷ xs) head same (e, c) =
    (e, rw (same x (ground arith)) (Links-frame t u xs (t x).next (λ a h. same a (ground arith)) c))

-- Where a member stands.
split_at :
    (t : ℕ) (xs : List ℕ) → has t xs ≡ true → (ys : List ℕ) × (zs : List ℕ) × (xs ≡ ys ++ (t ∷ zs))
split_at t [] h = absurd (ground arith)
split_at t (x ∷ xs) h = elim (Bool-cases (t == x)) [
  | inl e ↦ ([], xs, ap (λ (a : ℕ). a ∷ xs) (sym (eq_of_== t x e)))
  | inr e ↦
      let (ys, zs, f) = split_at t xs (ground arith) in (x ∷ ys, zs, ap (λ (l : List ℕ). x ∷ l) f)
]

-- The last of `ys`, or `prev`.
abbrev last_or : Ptr → List ℕ → Ptr
last_or prev [] = prev
last_or prev (y ∷ ys) = last_or (some y) ys

-- The loop finds the timer behind `ys`.
remove_from-found :
    (t fuel : ℕ) (ys zs : List ℕ) (prev iter : Ptr) (s : Timers)
    → Links s.timers (ys ++ (t ∷ zs)) iter
    → has t ys ≡ false
    → length ys < fuel
    → remove_from fuel prev iter t s ≡ timer_unlink (last_or prev ys) t s
unfolding remove_from
remove_from-found t zero ys zs prev iter s c out enough = absurd (omega arith)
remove_from-found t (suc fuel) [] zs prev iter s c out enough = rw (c.0, ==_self t) refl
remove_from-found t (suc fuel) (y ∷ ys) zs prev iter s c out enough =
    rw (c.0, ne)
      (remove_from-found t fuel ys zs (some y) (s.timers y).next s c.1 (ground arith) (omega arith))
  where
    ne : (y == t) ≡ false
    ne = ground arith

-- The last of a list is a member.
last-mem : (y p : ℕ) (ys : List ℕ) → last_or (some y) ys ≡ some p → has p (y ∷ ys) ≡ true
last-mem y p [] e = ground arith
last-mem y p (z ∷ ys) e = ground (arith, last-mem z p ys e)

-- What unlinking changes.
timer_unlink-next :
    (p t a : ℕ) (s : Timers)
    → (a == t) ≡ false
    → ((timer_unlink (some p) t s).timers a).next
      ≡ (if a == p then (s.timers t).next else (s.timers a).next)
unfolding timer_unlink
timer_unlink-next p t a s ne = ground arith

timer_unlink_first-next :
    (t a : ℕ) (s : Timers)
    → (a == t) ≡ false
    → ((timer_unlink none t s).timers a).next ≡ (s.timers a).next
unfolding timer_unlink
timer_unlink_first-next t a s ne = ground arith

timer_unlink-active :
    (prev : Ptr) (t a : ℕ) (s : Timers)
    → ((timer_unlink prev t s).timers a).active ≡ (if a == t then 0 else (s.timers a).active)
unfolding timer_unlink
timer_unlink-active none t a s = ground arith
timer_unlink-active (some p) t a s = ground arith

in_front :
    (x y : ℕ) (ys : List ℕ) → has x (y ∷ ys) ≡ true → (zs : List ℕ) → has x (y ∷ (ys ++ zs)) ≡ true
in_front x y ys h zs = ground (arith, has-append x ys zs)

Links-bypass :
    (t p y : ℕ) (ys zs : List ℕ) (head : Ptr) (s : Timers)
    → Links s.timers (y ∷ (ys ++ (t ∷ zs))) head
    → Distinct (y ∷ (ys ++ (t ∷ zs)))
    → last_or (some y) ys ≡ some p
    → Links (timer_unlink (some p) t s).timers (y ∷ (ys ++ zs)) head
Links-bypass t p y [] zs head s (e, (f, c)) (out, (out_t, d)) l = (
  e,
  rw (timer_unlink-next p t y s (ground arith), same)
      (Links-frame s.timers (timer_unlink (some p) t s).timers zs (s.timers t).next
        (λ a h. ground (arith, timer_unlink-next p t a s)) c),
)
  where
    same : (y == p) ≡ true
    same = ground arith
Links-bypass t p y (z ∷ ys) zs head s (e, c) (out, d) l = (
  e,
  rw (timer_unlink-next p t y s (ground (arith, has-append y ys (t ∷ zs))), other)
      (Links-bypass t p z ys zs (s.timers y).next s c d l),
)
  where
    other : (y == p) ≡ false
    other = ground (arith, in_front p z ys (last-mem z p ys l) (t ∷ zs))

-- Unlinking a member leaves the list without it.
unlink-Links :
    (t : ℕ) (ys zs : List ℕ) (s : Timers)
    → Links s.timers (ys ++ (t ∷ zs)) s.timer_list
    → Distinct (ys ++ (t ∷ zs))
    → Links
        (timer_unlink (last_or none ys) t s).timers
        (ys ++ zs)
        (timer_unlink (last_or none ys) t s).timer_list
unfolding timer_unlink
unlink-Links t [] zs s (e, c) (out, d) =
    Links-frame s.timers (timer_unlink none t s).timers zs (s.timers t).next
      (λ a h. timer_unlink_first-next t a s (ground arith)) c
unlink-Links t (y ∷ ys) zs s c d =
    let (p, e) = has_last y ys in
    subst
      (λ (o : Ptr).
        Links (timer_unlink o t s).timers (y ∷ (ys ++ zs)) (timer_unlink o t s).timer_list)
      (sym e) (Links-bypass t p y ys zs s.timer_list s c d e)
  where
    has_last : (y : ℕ) (ys : List ℕ) → (p : ℕ) × (last_or (some y) ys ≡ some p)
    has_last y [] = (y, refl)
    has_last y (z ∷ ys) = has_last z ys

length-lt-append : (ys : List ℕ) (t : ℕ) (zs : List ℕ) → length ys < length (ys ++ (t ∷ zs))
length-lt-append [] t zs = omega arith
length-lt-append (y ∷ ys) t zs = omega (arith, length-lt-append ys t zs)

-- Removing an active timer takes it off the list; the fuel is enough.
pub timer_list_remove-IsTimers :
    (s : Timers) (xs : List ℕ) (t : ℕ)
    → IsTimers s xs
    → has t xs ≡ true
    → IsTimers (timer_list_remove t s) (remove t xs)
unfolding timer_list_remove
timer_list_remove-IsTimers s xs t v h =
    let (ys, zs, e) = split_at t xs h in
    let c : Links s.timers (ys ++ (t ∷ zs)) s.timer_list =
      subst (λ (l : List ℕ). Links s.timers l s.timer_list) e v.linked in
    let d : Distinct (ys ++ (t ∷ zs)) = subst Distinct e v.distinct in
    let out : has t ys ≡ false = absent_in_front ys t zs d in
    let found : remove_from word none s.timer_list t s ≡ timer_unlink (last_or none ys) t s =
      remove_from-found t word ys zs none s.timer_list s c out (bounded ys zs e) in
    let left : remove t xs ≡ ys ++ zs = ap (remove t) e ∙ remove_middle ys t zs out in
    subst (λ (r : Timers). IsTimers r (remove t xs)) (sym found)
      (record {
        linked =
            subst
              (λ (l : List ℕ).
                Links (timer_unlink (last_or none ys) t s).timers l
                  (timer_unlink (last_or none ys) t s).timer_list)
              (sym left) (unlink-Links t ys zs s c d);
        distinct = Distinct-remove t xs v.distinct;
        small = λ a k. v.small a (has_of_has-remove a t xs k);
        listed = λ a. timer_unlink-active (last_or none ys) t a s ∙ flags a;
      })
  where
    bounded : (ys zs : List ℕ) → xs ≡ ys ++ (t ∷ zs) → length ys < word
    bounded ys zs e = omega (
      arith,
      length-lt-append ys t zs,
      length-le word (ys ++ (t ∷ zs)) (subst Distinct e v.distinct)
          (λ a k. v.small a (ap (has a) e ∙ k)),
    )

    flags :
        (a : ℕ)
        → (if a == t then 0 else (s.timers a).active) ≡ (if has a (remove t xs) then 1 else 0)
    flags a = elim (Bool-cases (a == t)) [
      | inl q ↦ rw (q, eq_of_== a t q, has-remove_self t xs v.distinct) refl
      | inr q ↦ rw (q, has-remove_ne a t xs q) (v.listed a)
    ]
