-- ===== src/Console.antt =====
-- mini-kernel/kernel/arch/x86_64/serial.c, the port and halt instructions of
-- mini-kernel/kernel/arch/x86_64/cpu.c, and the log functions of mini-kernel/kernel/main.c.
pub mod Output
use mini_isolation_lab.Base.{ℕ, zero, suc, ◌+◌, Bool, ◌==◌, ◌!=◌, if◌then◌else◌}
use mini_isolation_lab.Base.Words.{u8}
use mini_isolation_lab.Machine.{
  Addr, null, Event, World, ok, halted, out_of_fuel, Cmd, pure, ◌>>=◌, ◌>>◌, emit, load,
}
use Prim.Native.Nat.{bit_and}

-- `COM1`, and the offset of its line status register.
abbrev pub com1 : ℕ
com1 = 0x3f8

abbrev pub serial_line_status : ℕ
serial_line_status = 5

-- The caller converts the value to `uint8_t`.
pub arch_outb : ℕ → ℕ → Cmd (Unit {0})
arch_outb port value = emit (Event.out port value)

pub arch_inb : ℕ → Cmd ℕ
arch_inb port w = ok (u8 (w.input w.reads port)) (record w { reads = w.reads + 1 })

-- The bit of a line status that says that a byte can be sent.
abbrev pub can_transmit : ℕ → Bool
can_transmit status = bit_and status 0x20 != 0

serial_can_transmit : Cmd Bool
unfolding arch_inb
serial_can_transmit = do status ← arch_inb (com1 + serial_line_status); pure (can_transmit status)

pub arch_serial_init : Cmd (Unit {0})
unfolding arch_outb
arch_serial_init = do
  arch_outb (com1 + 1) 0x00
  arch_outb (com1 + 3) 0x80
  arch_outb com1 0x03
  arch_outb (com1 + 1) 0x00
  arch_outb (com1 + 3) 0x03
  arch_outb (com1 + 2) 0xc7
  arch_outb (com1 + 4) 0x0b

putc_loop : ℕ → ℕ → Cmd (Unit {0})
putc_loop zero ch = λ w. out_of_fuel
putc_loop (suc k) ch = do
  ready ← serial_can_transmit
  if ready then arch_outb com1 (u8 ch) else putc_loop k ch

pub arch_serial_putc : ℕ → Cmd (Unit {0})
unfolding putc_loop serial_can_transmit arch_outb
arch_serial_putc ch = λ w. putc_loop w.fuel ch w

unfoldable pub arch_halt : {A : Type 0} → Cmd A
arch_halt w = halted w

pub klog_putc : ℕ → Cmd (Unit {0})
unfolding arch_serial_putc
klog_putc ch =
    if ch == b'\n' then (do arch_serial_putc b'\r'; arch_serial_putc ch) else arch_serial_putc ch

write_loop : ℕ → Addr → ℕ → Cmd (Unit {0})
write_loop zero text i = λ w. out_of_fuel
write_loop (suc k) text i = do
  ch ← load (text + i)
  if ch != 0 then (do klog_putc ch; write_loop k text (i + 1)) else pure tt

pub klog_write : Addr → Cmd (Unit {0})
unfolding write_loop klog_putc
klog_write text = if text == null then pure tt else λ w. write_loop w.fuel text 0 w

unfoldable pub klog_writeln : Addr → Cmd (Unit {0})
unfolding klog_write
klog_writeln text = do klog_write text; klog_putc b'\n'
