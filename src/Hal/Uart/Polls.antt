-- ===== src/Hal/Uart/Polls.antt =====
-- hal/uart.h: waiting for the transmitter, by reading STAT until it shows the empty buffer.
use helix_rt.Prelude.{
  ℕ, suc, ◌≤◌, ◌≡◌, ap, ◌∙◌, inl, inr, arith, some, List, [], ◌∷◌, bit_and, ◌==◌, if◌then◌else◌,
  Bool, true, false, Bool-cases,
}
use helix_rt.Hal.Uart.{lpuart_stat_tdre, wait_status}

-- How many of the reads of STAT show an empty transmit buffer.
unfoldable pub ready_reads : List ℕ → ℕ
ready_reads [] = 0
ready_reads (stat ∷ reads) =
    let rest = ready_reads reads in if bit_and stat lpuart_stat_tdre == 0 then rest else suc rest

-- One wait for the transmitter: reads that show it busy, and then one that shows it ready.
pub data Awaited : List ℕ → List ℕ → Type 0 where
  at_once :
      {rest : List ℕ} (stat : ℕ)
      → (bit_and stat lpuart_stat_tdre == 0) ≡ false
      → Awaited (stat ∷ rest) rest
  busy :
      {reads rest : List ℕ} (stat : ℕ)
      → (bit_and stat lpuart_stat_tdre == 0) ≡ true
      → Awaited reads rest
      → Awaited (stat ∷ reads) rest

-- So many waits, one after another.
pub data Polled : ℕ → List ℕ → List ℕ → Type 0 where
  done : {reads : List ℕ} → Polled 0 reads reads
  wait_more :
      {n : ℕ} {reads rest : List ℕ} (between : List ℕ)
      → Awaited reads between
      → Polled n between rest
      → Polled (suc n) reads rest

-- One wait, and then the others.
pub Polled-suc :
    (m : ℕ) (reads between rest : List ℕ)
    → Polled 1 reads between
    → Polled m between rest
    → Polled (suc m) reads rest
Polled-suc m reads between rest (wait_more between1 a done) q = wait_more between a q

-- Where one read shows a ready transmitter, the wait ends, and uses just that one up.
pub wait_status_lem :
    (reads : List ℕ) (k : ℕ)
    → suc k ≤ ready_reads reads
    → (rest : List ℕ) × Awaited reads rest
      × (k ≤ ready_reads rest)
      × (wait_status lpuart_stat_tdre reads ≡ some rest)
unfolding wait_status ready_reads
wait_status_lem [] k h = absurd (omega arith)
wait_status_lem (stat ∷ reads) k h = elim (Bool-cases (bit_and stat lpuart_stat_tdre == 0)) [
  | inl e ↦
      let (rest, waited, left, f) = wait_status_lem reads k (ground arith) in
      (
        rest,
        busy stat e waited,
        left,
        ap (λ (b : Bool). if b then wait_status lpuart_stat_tdre reads else some reads) e ∙ f,
      )
  | inr e ↦ (
    reads,
    at_once stat e,
    ground arith,
    ap (λ (b : Bool). if b then wait_status lpuart_stat_tdre reads else some reads) e,
  )
]
