-- ===== src/Startup/Laws.antt =====
-- The loops of `Reset_Handler`: what they leave in memory.
use helix_rt.Prelude.{
  ℕ, zero, suc, ◌+◌, ◌*◌, ◌%◌, ◌<◌, ◌≤◌, ◌≡◌, refl, sym, ap, ◌∙◌, ◌⊎◌, inl, arith, ltb, Bool, true,
  false,
}
use helix_rt.Config.{word}
use helix_rt.Task.{put}
use helix_rt.Startup.{copy_words, zero_words}

-- The `n` words from `a` and the `k` words from `b` do not overlap.
abbrev pub Apart : ℕ → ℕ → ℕ → ℕ → Type 0
Apart a n b k = (a + 4 * n ≤ b) ⊎ (b + 4 * k ≤ a)

put_first : (m : ℕ → ℕ) (a v : ℕ) → put m a v (a + 4 * 0) ≡ v
put_first m a v = ground arith

put_other : (m : ℕ → ℕ) (a v x : ℕ) → (x < a) ⊎ (a < x) → put m a v x ≡ m x
put_other m a v x h = ground arith

goes_on : (dst n : ℕ) → ltb dst (dst + 4 * suc n) ≡ true
goes_on dst n = ground arith

starts : (src : ℕ) → src ≡ src + 4 * 0
starts src = omega arith

stops : (dst : ℕ) → ltb dst (dst + 4 * 0) ≡ false
stops dst = ground arith

no_wrap : (n x : ℕ) → x + 4 * suc n < word → (x + 4) % word ≡ x + 4
no_wrap n x h = omega arith

regroup : (n x : ℕ) → x + 4 * suc n ≡ x + 4 + 4 * n
regroup n x = omega arith

-- One step, and the end of the loop.
copy_words-step :
    (n fuel src dst : ℕ) (m : ℕ → ℕ)
    → dst + 4 * suc n < word
    → src + 4 * suc n < word
    → copy_words (suc fuel) src dst (dst + 4 * suc n) m
      ≡ copy_words fuel (src + 4) (dst + 4) (dst + 4 + 4 * n) (put m dst (m src))
unfolding copy_words
copy_words-step n fuel src dst m small small_src =
    ap
      (λ (b : Bool). elim b [
        | true ↦
            copy_words fuel ((src + 4) % word) ((dst + 4) % word) (dst + 4 * suc n)
              (put m dst (m src))
        | false ↦ m
      ])
      (goes_on dst n)
    ∙ ap (λ (x : ℕ). copy_words fuel x ((dst + 4) % word) (dst + 4 * suc n) (put m dst (m src)))
        (no_wrap n src small_src)
    ∙ ap (λ (x : ℕ). copy_words fuel (src + 4) x (dst + 4 * suc n) (put m dst (m src)))
        (no_wrap n dst small)
    ∙ ap (λ (x : ℕ). copy_words fuel (src + 4) (dst + 4) x (put m dst (m src))) (regroup n dst)

copy_words-end : (fuel src dst : ℕ) (m : ℕ → ℕ) → copy_words fuel src dst (dst + 4 * 0) m ≡ m
unfolding copy_words
copy_words-end zero src dst m = refl
copy_words-end (suc fuel) src dst m =
    ap
      (λ (b : Bool). elim b [
        | true ↦
            copy_words fuel ((src + 4) % word) ((dst + 4) % word) (dst + 4 * 0) (put m dst (m src))
        | false ↦ m
      ])
      (stops dst)

-- An address outside the words from `dst` keeps its word.
pub copy_words-frame :
    (n fuel src dst : ℕ) (m : ℕ → ℕ) (a : ℕ)
    → n ≤ fuel
    → dst + 4 * n < word
    → src + 4 * n < word
    → (a < dst) ⊎ (dst + 4 * n ≤ a)
    → copy_words fuel src dst (dst + 4 * n) m a ≡ m a
copy_words-frame zero fuel src dst m a enough small small_src out =
    ap (λ (f : ℕ → ℕ). f a) (copy_words-end fuel src dst m)
copy_words-frame (suc n) zero src dst m a enough small small_src out = absurd (omega arith)
copy_words-frame (suc n) (suc fuel) src dst m a enough small small_src out =
    ap (λ (f : ℕ → ℕ). f a) (copy_words-step n fuel src dst m small small_src)
    ∙ copy_words-frame n fuel (src + 4) (dst + 4) (put m dst (m src)) a (omega arith) (omega arith)
        (omega arith) (ground arith)
    ∙ put_other m dst (m src) a (ground arith)

-- The words from `dst` are those from `src`, if the two ranges do not overlap.
pub copy_words-copied :
    (n fuel src dst : ℕ) (m : ℕ → ℕ) (i : ℕ)
    → n ≤ fuel
    → dst + 4 * n < word
    → src + 4 * n < word
    → Apart src n dst n
    → i < n
    → copy_words fuel src dst (dst + 4 * n) m (dst + 4 * i) ≡ m (src + 4 * i)
copy_words-copied zero fuel src dst m i enough small small_src apart k = absurd (omega arith)
copy_words-copied (suc n) zero src dst m i enough small small_src apart k = absurd (omega arith)
copy_words-copied (suc n) (suc fuel) src dst m zero enough small small_src apart k =
    ap (λ (f : ℕ → ℕ). f (dst + 4 * 0)) (copy_words-step n fuel src dst m small small_src)
    ∙ copy_words-frame n fuel (src + 4) (dst + 4) (put m dst (m src)) (dst + 4 * 0) (omega arith)
        (omega arith) (omega arith) (inl (omega arith))
    ∙ put_first m dst (m src)
    ∙ ap m (starts src)
copy_words-copied (suc n) (suc fuel) src dst m (suc i) enough small small_src apart k =
    ap (λ (f : ℕ → ℕ). f (dst + 4 * suc i)) (copy_words-step n fuel src dst m small small_src)
    ∙ ap (copy_words fuel (src + 4) (dst + 4) (dst + 4 + 4 * n) (put m dst (m src))) (regroup i dst)
    ∙ copy_words-copied n fuel (src + 4) (dst + 4) (put m dst (m src)) i (omega arith) (omega arith)
        (omega arith) (ground arith) (omega arith)
    ∙ put_other m dst (m src) (src + 4 + 4 * i) (ground arith)
    ∙ ap m (sym (regroup i src))

zero_words-step :
    (n fuel dst : ℕ) (m : ℕ → ℕ)
    → dst + 4 * suc n < word
    → zero_words (suc fuel) dst (dst + 4 * suc n) m
      ≡ zero_words fuel (dst + 4) (dst + 4 + 4 * n) (put m dst 0)
unfolding zero_words
zero_words-step n fuel dst m small =
    ap
      (λ (b : Bool). elim b [
        | true ↦ zero_words fuel ((dst + 4) % word) (dst + 4 * suc n) (put m dst 0)
        | false ↦ m
      ])
      (goes_on dst n)
    ∙ ap (λ (x : ℕ). zero_words fuel x (dst + 4 * suc n) (put m dst 0)) (no_wrap n dst small)
    ∙ ap (λ (x : ℕ). zero_words fuel (dst + 4) x (put m dst 0)) (regroup n dst)

zero_words-end : (fuel dst : ℕ) (m : ℕ → ℕ) → zero_words fuel dst (dst + 4 * 0) m ≡ m
unfolding zero_words
zero_words-end zero dst m = refl
zero_words-end (suc fuel) dst m =
    ap
      (λ (b : Bool). elim b [
        | true ↦ zero_words fuel ((dst + 4) % word) (dst + 4 * 0) (put m dst 0)
        | false ↦ m
      ])
      (stops dst)

pub zero_words-frame :
    (n fuel dst : ℕ) (m : ℕ → ℕ) (a : ℕ)
    → n ≤ fuel
    → dst + 4 * n < word
    → (a < dst) ⊎ (dst + 4 * n ≤ a)
    → zero_words fuel dst (dst + 4 * n) m a ≡ m a
zero_words-frame zero fuel dst m a enough small out =
    ap (λ (f : ℕ → ℕ). f a) (zero_words-end fuel dst m)
zero_words-frame (suc n) zero dst m a enough small out = absurd (omega arith)
zero_words-frame (suc n) (suc fuel) dst m a enough small out =
    ap (λ (f : ℕ → ℕ). f a) (zero_words-step n fuel dst m small)
    ∙ zero_words-frame n fuel (dst + 4) (put m dst 0) a (omega arith) (omega arith) (ground arith)
    ∙ put_other m dst 0 a (ground arith)

pub zero_words-zeroed :
    (n fuel dst : ℕ) (m : ℕ → ℕ) (i : ℕ)
    → n ≤ fuel
    → dst + 4 * n < word
    → i < n
    → zero_words fuel dst (dst + 4 * n) m (dst + 4 * i) ≡ 0
zero_words-zeroed zero fuel dst m i enough small k = absurd (omega arith)
zero_words-zeroed (suc n) zero dst m i enough small k = absurd (omega arith)
zero_words-zeroed (suc n) (suc fuel) dst m zero enough small k =
    ap (λ (f : ℕ → ℕ). f (dst + 4 * 0)) (zero_words-step n fuel dst m small)
    ∙ zero_words-frame n fuel (dst + 4) (put m dst 0) (dst + 4 * 0) (omega arith) (omega arith)
        (inl (omega arith))
    ∙ put_first m dst 0
zero_words-zeroed (suc n) (suc fuel) dst m (suc i) enough small k =
    ap (λ (f : ℕ → ℕ). f (dst + 4 * suc i)) (zero_words-step n fuel dst m small)
    ∙ ap (zero_words fuel (dst + 4) (dst + 4 + 4 * n) (put m dst 0)) (regroup i dst)
    ∙ zero_words-zeroed n fuel (dst + 4) (put m dst 0) i (omega arith) (omega arith) (omega arith)
