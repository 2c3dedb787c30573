-- ===== src/Console/Output.antt =====
-- What the log functions send to the serial port, when the port becomes ready in time.
use mini_isolation_lab.Base.{
  ℕ, zero, suc, ◌+◌, ◌<◌, ◌≡◌, ◌≢◌, ap, sym, true, false, arith, inl, inr, List, [], ◌∷◌, ◌++◌,
  length, map, Bool-cases, ◌==◌, ◌!=◌, ◌∙◌, append_assoc, append-nil, map-append, if◌then◌else◌,
}
use mini_isolation_lab.Base.Words.{u8}
use mini_isolation_lab.Machine.{Addr, null, Event, World, Run, Cmd, ok, ◌>>◌}
use mini_isolation_lab.Machine.Memory.{CString}
use mini_isolation_lab.KernelLib.Strings.{load-some}
use mini_isolation_lab.Console.{
  com1, serial_line_status, can_transmit, serial_can_transmit, putc_loop, arch_serial_putc,
  klog_putc, write_loop, klog_write, arch_outb, arch_inb,
}

-- From every point on, one of the next reads of the line status says that a byte can be sent, and
-- it comes before the polling loop gives up.
abbrev pub IsResponsive : World → Type 0
IsResponsive w =
    (n : ℕ)
    → (k : ℕ) × (k < w.fuel)
      × (can_transmit (u8 (w.input (n + k) (com1 + serial_line_status))) ≡ true)

-- The world after these events and some reads of ports.
abbrev pub sent : World → List Event → ℕ → World
sent w es n = record w { trace = w.trace ++ es; reads = n }

-- The run ends, and these events are all that it did but for reads of ports.
abbrev pub Emits : World → List Event → Run (Unit {0}) → Type 0
Emits w es r = (n : ℕ) × (r ≡ ok tt (sent w es n))

pub Emits-bind :
    (w : World) (es es' : List Event) (m k : Cmd (Unit {0}))
    → Emits w es (m w)
    → ((n : ℕ) → Emits (sent w es n) es' (k (sent w es n)))
    → Emits w (es ++ es') ((m >> k) w)
Emits-bind w es es' m k (n, e) next =
    let (n', e') = next n in
    (
      n',
      rw (e, e')
          (ap (λ t. ok tt (record w { trace = t; reads = n' })) (append_assoc w.trace es es')),
    )

-- A byte on the serial line.
abbrev pub serial : ℕ → Event
serial ch = Event.out com1 (u8 ch)

putc_loop-Emits :
    (f k ch : ℕ) (w : World)
    → k < f
    → can_transmit (u8 (w.input (w.reads + k) (com1 + serial_line_status))) ≡ true
    → Emits w (serial ch ∷ []) (putc_loop f ch w)
unfolding putc_loop serial_can_transmit arch_outb arch_inb
putc_loop-Emits zero k ch w h ready = absurd (omega arith)
putc_loop-Emits (suc f) zero ch w h ready = (
  w.reads + 1,
  rw (ap (λ n. can_transmit (u8 (w.input n (com1 + serial_line_status)))) same ∙ ready),
)
  where
    same : w.reads ≡ w.reads + 0
    same = omega arith
putc_loop-Emits (suc f) (suc k) ch w h ready =
    elim (Bool-cases (can_transmit (u8 (w.input w.reads (com1 + serial_line_status))))) [
      | inl now ↦ (w.reads + 1, rw now)
      | inr later ↦ rw later (
          putc_loop-Emits f k ch (record w { reads = w.reads + 1 }) (omega arith)
            (ap (λ n. can_transmit (u8 (w.input n (com1 + serial_line_status)))) (omega arith)
              ∙ ready))
    ]

-- `arch_serial_putc` polls until the port is ready and then sends exactly this byte, when the port
-- becomes ready before the polling's fuel is out.
pub arch_serial_putc-Emits :
    (ch : ℕ) (w : World) → IsResponsive w → Emits w (serial ch ∷ []) (arch_serial_putc ch w)
unfolding arch_serial_putc
arch_serial_putc-Emits ch w responsive =
    let (k, fuel, ready) = responsive w.reads in putc_loop-Emits w.fuel k ch w fuel ready

-- Each line feed is preceded by a carriage return.
unfoldable pub crlf : List ℕ → List ℕ
crlf [] = []
crlf (ch ∷ chs) = if ch == b'\n' then b'\r' ∷ ch ∷ crlf chs else ch ∷ crlf chs

pub klog_putc-Emits :
    (ch : ℕ) (w : World) → IsResponsive w → Emits w (map serial (crlf (ch ∷ []))) (klog_putc ch w)
unfolding klog_putc crlf
klog_putc-Emits ch w responsive = elim (Bool-cases (ch == b'\n')) [
  | inl e ↦ rw e (
      Emits-bind w (serial b'\r' ∷ []) (serial ch ∷ []) (arch_serial_putc b'\r')
        (arch_serial_putc ch) (arch_serial_putc-Emits b'\r' w responsive)
        (λ n. arch_serial_putc-Emits ch (sent w (serial b'\r' ∷ []) n) responsive))
  | inr e ↦ rw e (arch_serial_putc-Emits ch w responsive)
]

pub crlf-cons : (ch : ℕ) (chs : List ℕ) → crlf (ch ∷ chs) ≡ crlf (ch ∷ []) ++ crlf chs
unfolding crlf
crlf-cons ch chs = ground arith

write_loop-Emits :
    (msg : List ℕ) (k text i : ℕ) (p : Addr) (w : World)
    → text + i ≡ p
    → CString w.mem p msg
    → length msg < k
    → IsResponsive w
    → Emits w (map serial (crlf msg)) (write_loop k text i w)
unfolding write_loop crlf
write_loop-Emits msg zero text i p w e s fuel responsive = absurd (omega arith)
write_loop-Emits [] (suc k) text i p w e s fuel responsive = (
  w.reads,
  rw (e, load-some p 0 w s) (ap (λ t. ok tt (record w { trace = t })) (sym (append-nil w.trace))),
)
write_loop-Emits (c ∷ cs) (suc k) text i p w e s fuel responsive =
    let go : (c != 0) ≡ true = ground arith in
    let body = λ (n : ℕ).
      write_loop-Emits cs k text (i + 1) (suc p) (sent w (map serial (crlf (c ∷ []))) n)
        (omega arith) s.2 (omega arith) responsive in
    rw (e, load-some p c w s.0, go, crlf-cons c cs, map-append)
      (Emits-bind w (map serial (crlf (c ∷ []))) (map serial (crlf cs)) (klog_putc c)
        (write_loop k text (i + 1)) (klog_putc-Emits c w responsive) body)

-- `klog_write` of a text other than null, with fuel for its length and a responsive port, sends
-- its bytes in order, each line feed behind a carriage return, and does nothing else but poll the
-- port.
pub klog_write-Emits :
    (text : Addr) (msg : List ℕ) (w : World)
    → text ≢ null
    → CString w.mem text msg
    → length msg < w.fuel
    → IsResponsive w
    → Emits w (map serial (crlf msg)) (klog_write text w)
unfolding klog_write
klog_write-Emits text msg w ne s fuel responsive =
    let there : (text == null) ≡ false = ground arith in
    rw there (write_loop-Emits msg w.fuel text 0 text w (omega arith) s fuel responsive)
