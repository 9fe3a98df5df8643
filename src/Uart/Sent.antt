-- ===== src/Uart/Sent.antt =====
-- The characters that reach a data register, each behind a read that found the line ready.
use Prim.Native.Nat.{bit_and}
use hob_os.Base.{
  ℕ, zero, suc, ◌+◌, ◌%◌, ◌^◌, ◌<◌, ◌≡◌, refl, sym, subst, ap, ◌∙◌, List, [], ◌∷◌, Bool, true,
  false, ◌==◌, if◌then◌else◌, ne→==, arith, Bool-cases, inl, inr,
}
use hob_os.Base.Run.{Cmd, ◌>>◌, Ends, ends, after, weaken}
use hob_os.Device.{bitp}
use hob_os.Uart.{
  Write, Uart, CharDevice, ioread8, iowrite8, poll, bit, uart_reg, aux_mu_io, aux_mu_lsr, dr, fr,
  mini_uart_wait_for_idle, mini_uart_putc, mini_uart_puts, uart_wait_for_idle, uart_putc, uart_puts,
}

-- A line: its data register, its status register, and what the status of a ready line is.
pub record Line : Type 0 where
  pub data_reg : ℕ
  pub status_reg : ℕ
  pub is_ready : ℕ → Bool

-- The status that the read number `n` finds
abbrev pub status : Line → (ℕ → ℕ → ℕ) → ℕ → ℕ
status l register n = register n l.status_reg % 2 ^ 8

-- `after` is `before` with one write for each character of the string, in order; the read just
-- before each of them found the line ready.
pub data Sent (l : Line) (register : ℕ → ℕ → ℕ) : List ℕ → List Write → List Write → Type 0 where
  done : (w : List Write) → Sent l register [] w w
  char :
      {c : ℕ} {s : List ℕ} {before after : List Write} (n : ℕ)
      → l.is_ready (status l register n) ≡ true
      → Sent l register s
          (record { reads_before = n + 1; address = l.data_reg; value = c } ∷ before)
          after
      → Sent l register (c ∷ s) before after

-- From every read on, one of the next `d` finds the line ready.
abbrev pub IsPatient : Line → (ℕ → ℕ → ℕ) → ℕ → Type 0
IsPatient l register d =
    (n : ℕ) → (m : ℕ) × (m < d) × (l.is_ready (status l register (n + m)) ≡ true)

-- Nothing but the reads changed, and the last of them found the line ready.
record Polled (l : Line) (s t : Uart) : Type 0 where
  last : ℕ
  ready : l.is_ready (status l s.register last) ≡ true
  same : t ≡ record s { reads = last + 1 }

poll-Polled :
    (l : Line) (m k : ℕ) (s : Uart)
    → m < k
    → l.is_ready (status l s.register (s.reads + m)) ≡ true
    → Ends (λ _ t. Polled l s t) (poll l.is_ready l.status_reg k s)
unfolding ioread8
poll-Polled l m zero s f e = absurd (omega arith)
poll-Polled l zero (suc k) s f e =
    let at : s.reads + 0 ≡ s.reads = omega arith in
    let r : l.is_ready (status l s.register s.reads) ≡ true =
      subst (λ n. l.is_ready (status l s.register n) ≡ true) at e in
    rw r (ends (record { last = s.reads; ready = r; same = refl }))
poll-Polled l (suc m) (suc k) s f e =
    let at : s.reads + suc m ≡ s.reads + 1 + m = omega arith in
    elim (Bool-cases (l.is_ready (status l s.register s.reads))) [
      | inl r ↦ rw r (ends (record { last = s.reads; ready = r; same = refl }))
      | inr r ↦ rw r (
          weaken
            (poll-Polled l m k (record s { reads = s.reads + 1 }) (omega arith)
              (subst (λ n. l.is_ready (status l s.register n) ≡ true) at e))
            λ _ t p. record { last = p.last; ready = p.ready; same = p.same })
    ]

-- One character was written behind a read that found the line ready.
record Put (l : Line) (c : ℕ) (s t : Uart) : Type 0 where
  last : ℕ
  ready : l.is_ready (status l s.register last) ≡ true
  same : t ≡ record s {
    reads = last + 1;
    written = record { reads_before = last + 1; address = l.data_reg; value = c } ∷ s.written;
  }

-- The mini UART is ready when bit 6 of its status is set, the PL011 when bit 5 is not.
abbrev pub line_of : Bool → CharDevice → Line
line_of mini dev =
    if mini
    then record {
      data_reg = uart_reg dev aux_mu_io;
      status_reg = uart_reg dev aux_mu_lsr;
      is_ready = bit 6;
    }
    else record {
      data_reg = uart_reg dev dr;
      status_reg = uart_reg dev fr;
      is_ready = λ v. bit_and v (bitp 5) == 0;
    }

abbrev putc_by : Bool → ℕ → ℕ → Cmd Uart (Unit {0})
putc_by mini fuel c = if mini then mini_uart_putc fuel c else uart_putc fuel c

abbrev pub puts_by : Bool → ℕ → List ℕ → Cmd Uart (Unit {0})
puts_by mini fuel cs = if mini then mini_uart_puts fuel cs else uart_puts fuel cs

-- Characters of a string: of 8 bits, and no NUL
abbrev pub IsText : List ℕ → Type 0
IsText [] = Unit
IsText (c ∷ cs) = (0 < c) × (c < 2 ^ 8) × IsText cs

-- What a string leaves
abbrev pub Printed : Line → List ℕ → Uart → Uart → Type 0
Printed l cs s t =
    Sent l s.register cs s.written t.written × (t.register ≡ s.register) × (t.uart_dev ≡ s.uart_dev)

module _ (fuel d : ℕ) (enough : d < fuel) where
  putc-Put :
      (mini : Bool) (c : ℕ) (s : Uart)
      → c < 2 ^ 8
      → IsPatient (line_of mini s.uart_dev) s.register d
      → Ends (λ _ t. Put (line_of mini s.uart_dev) c s t) (putc_by mini fuel c s)
  unfolding mini_uart_putc mini_uart_wait_for_idle uart_putc uart_wait_for_idle iowrite8
  putc-Put true c s small p =
      let (m, lt, e) = p s.reads in
      let whole : c % 2 ^ 8 ≡ c = omega arith in
      after (poll-Polled (line_of true s.uart_dev) m fuel s (omega arith) e)
        λ _ t q. rw (q.same, whole) (ends (record { last = q.last; ready = q.ready; same = refl }))
  putc-Put false c s small p =
      let (m, lt, e) = p s.reads in
      let whole : c % 2 ^ 8 ≡ c = omega arith in
      after (poll-Polled (line_of false s.uart_dev) m fuel s (omega arith) e)
        λ _ t q. rw (q.same, whole) (ends (record { last = q.last; ready = q.ready; same = refl }))

  puts_of_cons :
      (mini : Bool) (c : ℕ) (cs : List ℕ) (s : Uart)
      → 0 < c
      → puts_by mini fuel (c ∷ cs) s ≡ (do putc_by mini fuel c; puts_by mini fuel cs) s
  unfolding mini_uart_puts uart_puts
  puts_of_cons true c cs s h = rw (ne→== c 0 (omega arith)) refl
  puts_of_cons false c cs s h = rw (ne→== c 0 (omega arith)) refl

  Sent-Put :
      (l : Line) (c : ℕ) (cs : List ℕ) (s t u : Uart)
      → Put l c s t
      → Printed l cs t u
      → Printed l (c ∷ cs) s u
  Sent-Put l c cs s t u p (sent, reg, dev) =
      let same = p.same in
      (
        char p.last p.ready (subst (λ v. Sent l v.register cs v.written u.written) same sent),
        reg ∙ ap Uart.register same,
        dev ∙ ap Uart.uart_dev same,
      )

  pub puts_by-Printed :
      (mini : Bool) (cs : List ℕ) (s : Uart)
      → IsText cs
      → IsPatient (line_of mini s.uart_dev) s.register d
      → Ends (λ _ t. Printed (line_of mini s.uart_dev) cs s t) (puts_by mini fuel cs s)
  unfolding mini_uart_puts uart_puts
  puts_by-Printed true [] s text p = ends (done s.written, refl, refl)
  puts_by-Printed false [] s text p = ends (done s.written, refl, refl)
  puts_by-Printed mini (c ∷ cs) s text p = rw (puts_of_cons mini c cs s text.0) (
      after (putc-Put mini c s text.1 p) λ _ t q.
        let reg : t.register ≡ s.register = ap Uart.register q.same in
        let dev : t.uart_dev ≡ s.uart_dev = ap Uart.uart_dev q.same in
        weaken
          (subst (λ l. Ends (λ _ u. Printed l cs t u) (puts_by mini fuel cs t))
            (ap (line_of mini) dev)
            (puts_by-Printed mini cs t text.2 (
              subst (λ (v : Uart). IsPatient (line_of mini v.uart_dev) v.register d) (sym q.same)
                p)))
          λ _ u done. Sent-Put (line_of mini s.uart_dev) c cs s t u q done)
