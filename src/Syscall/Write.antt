-- ===== src/Syscall/Write.antt =====
-- `sys_write`: which bytes go where.
use mini_isolation_lab.Base.{
  ℕ, zero, suc, ◌+◌, ◌≡◌, inl, inr, refl, ap, sym, Bool, true, false, ◌&&◌, ◌||◌, arith, some, List,
  [], ◌∷◌, ◌++◌, map, map-append, append-nil, Bool-cases, ◌==◌, ◌!=◌, if◌then◌else◌,
}
use mini_isolation_lab.Machine.{Addr, null, Event, World, Run, ok, with_trace}
use mini_isolation_lab.Machine.Memory.{Room, byte_at, peek}
use mini_isolation_lab.KernelLib.Copy.{load-mapped}
use mini_isolation_lab.Console.Output.{
  IsResponsive, sent, Emits, Emits-bind, serial, crlf, crlf-cons, klog_putc-Emits,
}
use mini_isolation_lab.Syscall.{
  Ktask, KsyscallError, KsyscallResult, failure, ksyscall_result, fd_stdout, fd_stderr,
  default_write_byte, put_byte, write_loop, sys_write, task_contains_user_range,
}
use mini_isolation_lab.Syscall.Range.{contains-Room}

-- What the bytes of a write become: calls of the task's `write_byte` in order or, without one, bytes
-- on the serial line with a carriage return before each line feed.
pub written : Ktask → List ℕ → List Event
written t bytes =
    if t.write_byte != null
    then map (Event.call t.write_byte t.write_ctx) bytes
    else map serial (crlf bytes)

-- The default writer needs the port; another one does not.
abbrev pub CanWrite : Ktask → World → Type 0
CanWrite t w = t.write_byte ≡ null → IsResponsive w

put_byte-Emits :
    (t : Ktask) (ch : ℕ) (w : World)
    → CanWrite t w
    → Emits w (written t (ch ∷ [])) (put_byte t ch w)
unfolding put_byte default_write_byte written
put_byte-Emits t ch w can = elim (Bool-cases (t.write_byte != null)) [
  | inl e ↦ rw e (w.reads, refl)
  | inr e ↦ rw e (klog_putc-Emits ch w (can (ground arith)))
]

written-cons :
    (t : Ktask) (b : ℕ) (bs : List ℕ) → written t (b ∷ bs) ≡ written t (b ∷ []) ++ written t bs
unfolding written
written-cons t b bs = elim (Bool-cases (t.write_byte != null)) [
  | inl e ↦ rw e
  | inr e ↦ rw (e, crlf-cons b bs, map-append)
]

written-nil : (t : Ktask) → written t [] ≡ []
unfolding written crlf
written-nil t = ground arith

abbrev pub is_output : ℕ → Bool
is_output fd = (fd == fd_stdout) || (fd == fd_stderr)

both_ne : (fd : ℕ) → is_output fd ≡ false → ((fd != fd_stdout) && (fd != fd_stderr)) ≡ true
both_ne fd h = ground arith

some_eq : (fd : ℕ) → is_output fd ≡ true → ((fd != fd_stdout) && (fd != fd_stderr)) ≡ false
some_eq fd h = ground arith

write_loop-Emits :
    (n : ℕ) (t : Ktask) (bytes i : ℕ) (p : Addr) (w : World)
    → bytes + i ≡ p
    → Room w.mem p n
    → CanWrite t w
    → Emits w (written t (peek w.mem p n)) (write_loop n t bytes i w)
unfolding write_loop peek
write_loop-Emits zero t bytes i p w e room can =
    (w.reads, rw written-nil (ap (λ es. ok tt (with_trace w es)) (sym (append-nil w.trace))))
write_loop-Emits (suc n) t bytes i p w e room can =
    let b = byte_at w.mem p in
    let rest = peek w.mem (suc p) n in
    rw (e, load-mapped p w (room p (omega arith) (omega arith)), written-cons t b rest)
      (Emits-bind w (written t (b ∷ [])) (written t rest) (put_byte t b)
        (write_loop n t bytes (i + 1)) (put_byte-Emits t b w can)
        (λ k.
          write_loop-Emits n t bytes (i + 1) (suc p) (sent w (written t (b ∷ [])) k) (omega arith)
            (λ a l u. room a (omega arith) (omega arith)) can))

-- What `sys_write` does, by whether the descriptor is an output and the range accepted; `n` reads of
-- ports have been made at its end.
abbrev pub write_outcome : Bool → Bool → Ktask → ℕ → ℕ → World → ℕ → Run KsyscallResult
write_outcome false inside t ptr len w n = ok (failure KsyscallError.ebadf) w
write_outcome true false t ptr len w n = ok (failure KsyscallError.efault) w
write_outcome true true t ptr len w n =
    ok (ksyscall_result len KsyscallError.success) (sent w (written t (peek w.mem ptr len)) n)

-- `sys_write` when the user memory is mapped and the output can take bytes. A descriptor other
-- than the standard output and error is refused, then a range outside the user memory; else
-- exactly the bytes of the range are delivered, in order, their number is the result, and memory
-- stays as it was.
pub sys_write_outcome :
    (t : Ktask) (fd ptr len : ℕ) (w : World)
    → Room w.mem t.user_base t.user_len
    → CanWrite t w
    → (n : ℕ) × (sys_write (some t) fd ptr len w
        ≡ write_outcome (is_output fd) (task_contains_user_range (some t) ptr len) t ptr len w n)
unfolding sys_write
sys_write_outcome t fd ptr len w room can = elim (Bool-cases (is_output fd)) [
  | inr bad ↦ (0, rw (bad, both_ne fd bad))
  | inl good ↦ elim (Bool-cases (task_contains_user_range (some t) ptr len)) [
    | inr outside ↦ (0, rw (good, some_eq fd good, outside))
    | inl inside ↦
        let (n, e) =
          write_loop-Emits len t ptr 0 ptr w (omega arith)
            (contains-Room t ptr len inside w.mem room) can in
        (n, rw (good, some_eq fd good, inside, e))
  ]
]
