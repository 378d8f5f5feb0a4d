-- ===== src/Kernel/Switch/Frames.antt =====
-- Frames in memory: what is stored is what is loaded.
use helix_rt.Prelude.{
  ℕ, zero, suc, ◌+◌, ◌*◌, ◌%◌, ◌≤◌, ◌<◌, ◌≡◌, refl, ap, ◌∙◌, ◌⊎◌, inl, List, [], ◌∷◌, length, arith,
}
use helix_rt.Config.{word}
use helix_rt.Task.{put}
use helix_rt.Kernel.Stack.{Memory}
use helix_rt.Kernel.Stack.Laws.{words_at}
use helix_rt.Kernel.Switch.{
  SwStackFrame, HwStackFrame, word_at, frame_words, store_words, load_frame, load_hw_frame,
}

no_wrap : (a n : ℕ) → a + 4 * suc n < word → (a + 4) % word ≡ a + 4
no_wrap a n h = omega arith

-- Storing keeps the words outside the range.
pub store_words-frame :
    (xs : List ℕ) (a : ℕ) (mem : Memory) (x : ℕ)
    → a + 4 * length xs < word
    → (x < a) ⊎ (a + 4 * length xs ≤ x)
    → store_words xs a mem x ≡ mem x
unfolding store_words
store_words-frame [] a mem x small out = refl
store_words-frame (y ∷ ys) a mem x small out =
    ap (λ (b : ℕ). store_words ys b (put mem a y) x) (no_wrap a (length ys) small)
    ∙ store_words-frame ys (a + 4) (put mem a y) x (omega arith) (ground arith)
    ∙ other a x y (ground arith)
  where
    other : (a x y : ℕ) → (x < a) ⊎ (a < x) → put mem a y x ≡ mem x
    other a x y h = ground arith

pub store_words-words :
    (xs : List ℕ) (a : ℕ) (mem : Memory)
    → a + 4 * length xs < word
    → words_at (length xs) a (store_words xs a mem) ≡ xs
unfolding store_words
store_words-words [] a mem small = refl
store_words-words (y ∷ ys) a mem small =
    ap (λ (b : ℕ). words_at (suc (length ys)) a (store_words ys b (put mem a y)))
      (no_wrap a (length ys) small)
    ∙ ap (λ (x : ℕ). x ∷ words_at (length ys) (a + 4) (store_words ys (a + 4) (put mem a y)))
        (store_words-frame ys (a + 4) (put mem a y) a (omega arith) (inl (omega arith)) ∙ own a y)
    ∙ ap (λ (l : List ℕ). y ∷ l) (store_words-words ys (a + 4) (put mem a y) (omega arith))
  where
    own : (a y : ℕ) → put mem a y a ≡ y
    own a y = ground arith

-- The `i`-th word of a list, and of the words in memory.
abbrev pub nth : ℕ → List ℕ → ℕ
nth i [] = 0
nth zero (x ∷ xs) = x
nth (suc i) (x ∷ xs) = nth i xs

nth-words_at :
    (i n a : ℕ) (mem : Memory)
    → i < n
    → a + 4 * n < word
    → word_at i a mem ≡ nth i (words_at n a mem)
nth-words_at i zero a mem h small = absurd (omega arith)
nth-words_at zero (suc n) a mem h small = ap mem (omega arith)
nth-words_at (suc i) (suc n) a mem h small =
    ap mem (shift a i n small) ∙ nth-words_at i n (a + 4) mem (omega arith) (omega arith)
  where
    shift : (a i n : ℕ) → a + 4 * suc n < word → (a + 4 * suc i) % word ≡ (a + 4 + 4 * i) % word
    shift a i n s = ap (λ (x : ℕ). x % word) (omega arith)

-- A frame is loaded from where its words stand.
pub load_frame_lem :
    (f : SwStackFrame) (a : ℕ) (mem : Memory)
    → a + 36 < word
    → words_at 9 a mem ≡ frame_words f
    → load_frame a mem ≡ f
unfolding load_frame
load_frame_lem f a mem small e = λ i. record {
  r4 = at 0 (omega arith) i;
  r5 = at 1 (omega arith) i;
  r6 = at 2 (omega arith) i;
  r7 = at 3 (omega arith) i;
  r8 = at 4 (omega arith) i;
  r9 = at 5 (omega arith) i;
  r10 = at 6 (omega arith) i;
  r11 = at 7 (omega arith) i;
  exc_return = at 8 (omega arith) i;
}
  where
    at : (k : ℕ) → k < 9 → word_at k a mem ≡ nth k (frame_words f)
    at k h = nth-words_at k 9 a mem h small ∙ ap (nth k) e

-- Storing a frame elsewhere keeps the words of this one.
pub words_at-store_words :
    (n a : ℕ) (xs : List ℕ) (b : ℕ) (mem : Memory)
    → b + 4 * length xs < word
    → (a + 4 * n ≤ b) ⊎ (b + 4 * length xs ≤ a)
    → words_at n a (store_words xs b mem) ≡ words_at n a mem
words_at-store_words zero a xs b mem small apart = refl
words_at-store_words (suc n) a xs b mem small apart =
    ap (λ (x : ℕ). x ∷ words_at n (a + 4) (store_words xs b mem))
      (store_words-frame xs b mem a small (ground arith))
    ∙ ap (λ (l : List ℕ). mem a ∷ l) (words_at-store_words n (a + 4) xs b mem small (ground arith))

-- The same for the frame that the processor stacks.
pub load_hw_frame_lem :
    (f : HwStackFrame) (a : ℕ) (mem : Memory)
    → a + 32 < word
    → words_at 8 a mem ≡ f.r0 ∷ f.r1 ∷ f.r2 ∷ f.r3 ∷ f.r12 ∷ f.lr ∷ f.pc ∷ f.xpsr ∷ []
    → load_hw_frame a mem ≡ f
unfolding load_hw_frame
load_hw_frame_lem f a mem small e = λ i. record {
  r0 = at 0 (omega arith) i;
  r1 = at 1 (omega arith) i;
  r2 = at 2 (omega arith) i;
  r3 = at 3 (omega arith) i;
  r12 = at 4 (omega arith) i;
  lr = at 5 (omega arith) i;
  pc = at 6 (omega arith) i;
  xpsr = at 7 (omega arith) i;
}
  where
    words : List ℕ
    words = f.r0 ∷ f.r1 ∷ f.r2 ∷ f.r3 ∷ f.r12 ∷ f.lr ∷ f.pc ∷ f.xpsr ∷ []

    at : (k : ℕ) → k < 8 → word_at k a mem ≡ nth k words
    at k h = nth-words_at k 8 a mem h small ∙ ap (nth k) e
