-- ===== src/Hal/Uart/Laws.antt =====
-- Sending a buffer and a string: every byte is stored, in order, once the transmitter is ready often
-- enough.
use helix_rt.Prelude.{
  ℕ, zero, suc, ◌+◌, ◌%◌, ◌<◌, ◌≤◌, ◌≡◌, ◌≢◌, refl, sym, ap, subst, ◌∙◌, arith, Option, some, List,
  [], ◌∷◌, ◌++◌, length, ◌==◌, if◌then◌else◌, Bool, true, false,
}
use helix_rt.Config.{word}
use helix_rt.Hal.Uart.Polls.{ready_reads, Polled, done, wait_more, wait_status_lem, Polled-suc}
use helix_rt.Hal.Uart.{Lpuart, send_after, uart_putc, then_send, uart_write, puts_from, uart_puts}

append_nil : (xs : List ℕ) → xs ≡ xs ++ []
append_nil [] = refl
append_nil (x ∷ xs) = ap (λ (ys : List ℕ). x ∷ ys) (append_nil xs)

append_one : (xs ys : List ℕ) (c : ℕ) → (xs ++ (c ∷ [])) ++ ys ≡ xs ++ (c ∷ ys)
append_one [] ys c = refl
append_one (x ∷ xs) ys c = ap (λ (zs : List ℕ). x ∷ zs) (append_one xs ys c)

-- The bytes are stored from the address `a`.
abbrev pub Stored : (ℕ → ℕ) → ℕ → List ℕ → Type 0
Stored memory a [] = Unit {0}
Stored memory a (b ∷ bs) = (memory a ≡ b) × Stored memory (a + 1) bs

-- A string: bytes other than 0, then a 0.
abbrev pub StoredString : (ℕ → ℕ) → ℕ → List ℕ → Type 0
StoredString memory a [] = memory a ≡ 0
StoredString memory a (b ∷ bs) = (memory a ≡ b) × (b ≢ 0) × StoredString memory (a + 1) bs

abbrev pub append_sent : List ℕ → Lpuart → Lpuart
append_sent bs u = record u { sent = u.sent ++ bs }

-- The run ends with the bytes sent, one wait made for each, and `k` ready reads left.
abbrev pub Sends : List ℕ → ℕ → List ℕ → Lpuart → Option (List ℕ × Lpuart) → Type 0
Sends bs k reads u result =
    (rest : List ℕ) × Polled (length bs) reads rest
    × (k ≤ ready_reads rest)
    × (result ≡ some (rest, append_sent bs u))

uart_putc-Sends :
    (c k : ℕ) (reads : List ℕ) (u : Lpuart)
    → suc k ≤ ready_reads reads
    → Sends (c ∷ []) k reads u (uart_putc c reads u)
unfolding uart_putc send_after
uart_putc-Sends c k reads u h =
    let (rest, waited, left, e) = wait_status_lem reads k h in
    (rest, wait_more rest waited done, left, ap (send_after c u) e)

sent_cons :
    (c : ℕ) (bs : List ℕ) (u : Lpuart)
    → append_sent bs (append_sent (c ∷ []) u) ≡ append_sent (c ∷ bs) u
sent_cons c bs u = ap (λ (s : List ℕ). record u { sent = s }) (append_one u.sent bs c)

-- A byte that is read from memory.
putc_stored :
    (b c k : ℕ) (reads : List ℕ) (u : Lpuart)
    → c ≡ b
    → suc k ≤ ready_reads reads
    → Sends (b ∷ []) k reads u (uart_putc c reads u)
putc_stored b c k reads u e h =
    subst (λ (x : ℕ). Sends (b ∷ []) k reads u (uart_putc x reads u)) (sym e)
      (uart_putc-Sends b k reads u h)

-- One byte, and then the others.
then_send-Sends :
    (c : ℕ) (bs : List ℕ) (k : ℕ) (reads : List ℕ) (u : Lpuart)
    (go : List ℕ → Lpuart → Option (List ℕ × Lpuart)) (first : Option (List ℕ × Lpuart))
    → Sends (c ∷ []) (length bs + k) reads u first
    → ((between : List ℕ) (v : Lpuart)
        → length bs + k ≤ ready_reads between
        → Sends bs k between v (go between v))
    → Sends (c ∷ bs) k reads u (then_send go first)
unfolding then_send
then_send-Sends c bs k reads u go first (between, polled, enough, e) next =
    let (rest, waits, left, f) = next between (append_sent (c ∷ []) u) enough in
    (
      rest,
      Polled-suc (length bs) reads between rest polled waits,
      left,
      ap (then_send go) e ∙ f ∙ ap (λ (v : Lpuart). some (rest, v)) (sent_cons c bs u),
    )

sent_nil : (u : Lpuart) → u ≡ append_sent [] u
sent_nil u = ap (λ (s : List ℕ). record u { sent = s }) (append_nil u.sent)

within : (a n : ℕ) → a + suc n < word → (a + 1) % word ≡ a + 1
within a n h = omega arith

-- If the transmitter is ready as often as there are bytes, all of them are sent.
pub uart_write-Sends :
    (memory : ℕ → ℕ) (bs : List ℕ) (k address : ℕ) (reads : List ℕ) (u : Lpuart)
    → Stored memory address bs
    → address + length bs < word
    → length bs + k ≤ ready_reads reads
    → Sends bs k reads u (uart_write memory address (length bs) reads u)
unfolding uart_write
uart_write-Sends memory [] k address reads u stored small enough =
    (reads, done, omega arith, ap (λ (v : Lpuart). some (reads, v)) (sent_nil u))
uart_write-Sends memory (b ∷ bs) k address reads u (here, there) small enough =
    then_send-Sends b bs k reads u (uart_write memory ((address + 1) % word) (length bs))
      (uart_putc (memory address) reads u)
      (putc_stored b (memory address) (length bs + k) reads u here (omega arith))
      (λ rest v ready.
        subst (λ (a : ℕ). Sends bs k rest v (uart_write memory a (length bs) rest v))
          (sym (within address (length bs) (omega arith)))
          (uart_write-Sends memory bs k (address + 1) rest v there (omega arith) ready))

is_zero : (n : ℕ) → n ≡ 0 → (n == 0) ≡ true
is_zero n h = ground arith

not_zero : (n b : ℕ) → n ≡ b → b ≢ 0 → (n == 0) ≡ false
not_zero n b h k = ground arith

puts_from-Sends :
    (memory : ℕ → ℕ) (bs : List ℕ) (k s fuel : ℕ) (reads : List ℕ) (u : Lpuart)
    → StoredString memory s bs
    → s + length bs < word
    → length bs < fuel
    → length bs + k ≤ ready_reads reads
    → Sends bs k reads u (puts_from fuel memory s reads u)
unfolding puts_from
puts_from-Sends memory bs k s zero reads u stored small fuelled enough = absurd (omega arith)
puts_from-Sends memory [] k s (suc fuel) reads u stored small fuelled enough = (
  reads,
  done,
  omega arith,
  ap
        (λ (b : Bool).
          if b
          then some (reads, u)
          else then_send (puts_from fuel memory ((s + 1) % word)) (uart_putc (memory s) reads u))
        (is_zero (memory s) stored)
      ∙ ap (λ (v : Lpuart). some (reads, v)) (sent_nil u),
)
puts_from-Sends memory (b ∷ bs) k s (suc fuel) reads u (here, nonzero, there) small fuelled enough =
    subst
      (λ (z : Bool). Sends (b ∷ bs) k reads u (
        if z
        then some (reads, u)
        else then_send (puts_from fuel memory ((s + 1) % word)) (uart_putc (memory s) reads u)))
      (sym (not_zero (memory s) b here nonzero))
      (then_send-Sends b bs k reads u (puts_from fuel memory ((s + 1) % word))
        (uart_putc (memory s) reads u)
        (putc_stored b (memory s) (length bs + k) reads u here (omega arith))
        (λ rest v ready.
          subst (λ (a : ℕ). Sends bs k rest v (puts_from fuel memory a rest v))
            (sym (within s (length bs) (omega arith)))
            (puts_from-Sends memory bs k (s + 1) fuel rest v there (omega arith) (omega arith)
              ready)))

-- For a string that ends below the last address: if the transmitter is ready at least as often as the
-- string has bytes, uart_puts returns, all the bytes are sent in order, and the 0 behind them is not.
-- For each byte it has read the status register up to the next read that shows a ready transmitter,
-- and no further; the reads behind the last of these are left, with at least `k` ready ones if there
-- were `k` more than bytes.
pub uart_puts-Sends :
    (memory : ℕ → ℕ) (bs : List ℕ) (k s : ℕ) (reads : List ℕ) (u : Lpuart)
    → StoredString memory s bs
    → s + length bs < word
    → length bs + k ≤ ready_reads reads
    → Sends bs k reads u (uart_puts memory s reads u)
unfolding uart_puts
uart_puts-Sends memory bs k s reads u stored small enough =
    puts_from-Sends memory bs k s word reads u stored small (omega arith) enough
