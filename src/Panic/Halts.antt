-- ===== src/Panic/Halts.antt =====
-- What a failed assertion sends before it halts.
use mini_isolation_lab.Base.{
  ℕ, ap, append_assoc, ◌<◌, ◌≡◌, ◌≢◌, refl, List, [], ◌∷◌, ◌++◌, map, length, Bool, true, false,
  ◌!=◌, if◌then◌else◌,
}
use mini_isolation_lab.Machine.{Addr, World, ok, halted, null}
use mini_isolation_lab.Machine.Memory.{CString}
use mini_isolation_lab.Console.{klog_write, klog_writeln, klog_putc, arch_halt}
use mini_isolation_lab.Console.Output.{
  IsResponsive, Emits, Emits-bind, sent, serial, crlf, klog_write-Emits, klog_putc-Emits,
}
use mini_isolation_lab.Panic.{PanicTexts, kernel_panic, kassert}

-- A text that can be logged.
pub record IsText (w : World) (p : Addr) (text : List ℕ) : Type 0 where
  pub there : p ≢ null
  pub string : CString w.mem p text
  pub short : length text < w.fuel

klog_writeln-Emits :
    (p : Addr) (text : List ℕ) (w : World)
    → IsText w p text
    → IsResponsive w
    → Emits w (map serial (crlf text) ++ map serial (crlf (b'\n' ∷ []))) (klog_writeln p w)
unfolding klog_writeln
klog_writeln-Emits p text w t responsive =
    Emits-bind w (map serial (crlf text)) (map serial (crlf (b'\n' ∷ []))) (klog_write p)
      (klog_putc b'\n') (klog_write-Emits p text w t.there t.string t.short responsive)
      (λ n. klog_putc-Emits b'\n' (sent w (map serial (crlf text)) n) responsive)

-- `KASSERT` of a condition that holds does nothing; of one that fails, it sends the prefix, the
-- message or the text for a missing one, and a line feed, each line feed behind a carriage return,
-- and halts. Hypotheses: the prefix and the text are strings that the fuel suffices for, and the
-- port is responsive.
pub kassert-halts :
    (texts : PanicTexts) (message : Addr) (holds : Bool) (prefix text : List ℕ) (w : World)
    → IsText w texts.prefix_at prefix
    → IsText w (if message != null then message else texts.null_at) text
    → IsResponsive w
    → (n : ℕ) × (kassert texts message holds w ≡ (
        if holds
        then ok tt w
        else halted (
            sent w
              (map serial (crlf prefix)
                ++ (map serial (crlf text) ++ map serial (crlf (b'\n' ∷ []))))
              n)))
unfolding kassert kernel_panic arch_halt
kassert-halts texts message true prefix text w said why responsive = (0, refl)
kassert-halts texts message false prefix text w said why responsive =
    let chosen = if message != null then message else texts.null_at in
    let first = map serial (crlf prefix) in
    let rest = map serial (crlf text) ++ map serial (crlf (b'\n' ∷ [])) in
    let (n, run) =
      klog_write-Emits texts.prefix_at prefix w said.there said.string said.short responsive in
    let (k, then_run) =
      klog_writeln-Emits chosen text (sent w first n)
        (record { there = why.there; string = why.string; short = why.short }) responsive in
    (
      k,
      rw (run, then_run)
          (ap (λ t. halted (record w { trace = t; reads = k })) (append_assoc w.trace first rest)),
    )
