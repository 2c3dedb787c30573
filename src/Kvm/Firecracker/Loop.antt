-- ===== src/Kvm/Firecracker/Loop.antt =====
-- The loop around KVM_RUN of mini_firecracker.c: what is shown of what the guest sends, and when it ends.
use mathlib.Core.Path.{subst}
use mini_isolation_lab.Base.{
  ℕ, zero, suc, ◌+◌, ◌%◌, ◌≡◌, inl, inr, refl, sym, ap, ◌∙◌, arith, true, if◌then◌else◌, Bool-cases,
  ==_refl, append-nil, append_assoc, some, [], ◌∷◌, ◌++◌, ◌==◌,
}
use mini_isolation_lab.Host.{Text, KvmRun, Prog, ◌>>=◌, eintr}
use mini_isolation_lab.Host.Paths.{
  End, Stop, Always, Quiet, Quiet-then, Always-then, Always-weaken, on_answer,
}
use mini_isolation_lab.Kvm.{die}
use mini_isolation_lab.Kvm.Firecracker.{
  Held, whole_memory, start_regs, guest_entry, guest_mem_size, Leave, Handled, ExitKind, exit_kind,
  put_bytes, handle_io_exit, handle_exit, run_failed, after_exit, run_loop,
}
use mini_isolation_lab.Kvm.Firecracker.Watch.{
  Vm, step, bytes_from, elsewhere, after_io, exited, placed, ran,
}

-- The machine while it is held, after so many rounds and halts.
abbrev pub machine : Held → (runs halts : ℕ) → (sent shown : Text) → Vm
machine held runs halts sent shown = record {
  fds = held.vcpu_fd ∷ held.vm_fd ∷ held.kvm_fd ∷ [];
  maps = (held.run, held.run_mmap_size) ∷ (held.guest_mem, guest_mem_size) ∷ [];
  code = some (held.guest_mem + guest_entry);
  memory = some (whole_memory held.guest_mem);
  regs = some start_regs;
  runs = runs;
  early = 0;
  halts = halts;
  sent = sent;
  shown = shown;
  foreign = 0;
}

-- A failure is `exit(1)`, and the vCPU was not run before it was ready.
abbrev pub Died : Vm → Stop → Type 0
Died m (Stop.exits n) = (n ≡ 1) × (m.early ≡ 0)
Died m _ = ⊥

-- How often the vCPU has halted when the loop is left.
abbrev pub halts_at : Leave → ℕ
halts_at Leave.at_done = 1
halts_at Leave.at_fail = 0

abbrev pub AfterExit : Held → ℕ → Vm → ℕ → End Handled → Type 0
AfterExit held r m e (End.returned Handled.again) = (s : Text) × (m ≡ machine held r 0 s s)
AfterExit held r m e (End.returned (Handled.leave l)) =
    (s : Text) × (m ≡ machine held r (halts_at l) s s)
AfterExit held r m e (End.stopped x) = Died m x

pub put_bytes-shows :
    (k i : ℕ) (bytes : ℕ → ℕ) (held : Held) (r h : ℕ) (sent shown : Text) (e : ℕ)
    → Always step
        (Quiet step (machine held r h sent (shown ++ bytes_from k i bytes)))
        (put_bytes k i bytes)
        (machine held r h sent shown)
        e
unfolding put_bytes
put_bytes-shows zero i bytes held r h sent shown e =
    ap (machine held r h sent) (sym (append-nil shown))
put_bytes-shows (suc k) i bytes held r h sent shown e =
    subst
      (λ t.
        Always step (Quiet step (machine held r h sent t)) (put_bytes k (suc i) bytes)
          (machine held r h sent (shown ++ ((bytes i % 256) ∷ []))) e)
      (append_assoc shown ((bytes i % 256) ∷ []) (bytes_from k (suc i) bytes))
      (put_bytes-shows k (suc i) bytes held r h sent (shown ++ ((bytes i % 256) ∷ [])) e)

-- The bytes of one exit are shown, or the program ends.
abbrev pub AfterIo : Held → ℕ → Text → Vm → ℕ → End (Unit {0}) → Type 0
AfterIo held r s m e (End.returned u) = m ≡ machine held r 0 s s
AfterIo held r s m e (End.stopped x) = Died m x

-- What the guest has sent after an exit.
abbrev pub with_exit : KvmRun → Text → Text
with_exit run s = s ++ bytes_from run.count 0 run.bytes

pub handle_io_exit-shows :
    (run : KvmRun) (held : Held) (r : ℕ) (s : Text) (e : ℕ)
    → Always step
        (AfterIo held r (with_exit run s))
        (handle_io_exit run)
        (after_io (machine held r 0 s s) run)
        e
unfolding handle_io_exit
handle_io_exit-shows run held r s e =
    let t = with_exit run s in
    elim (Bool-cases (elsewhere run)) [
      | inl other ↦ rw (other, Always) (refl, refl)
      | inr ours ↦
          rw (ours, Always)
            (Quiet-then step (AfterIo held r t) (put_bytes run.count 0 run.bytes) _
              (machine held r 0 t s) (machine held r 0 t t) e
              (put_bytes-shows run.count 0 run.bytes held r 0 t s e) (λ u x. refl))
    ]

-- The machine after an exit of this kind.
abbrev pub after_run : Vm → KvmRun → ExitKind → Vm
after_run m run ExitKind.exit_io = after_io m run
after_run m run ExitKind.exit_hlt = record m { halts = m.halts + 1 }
after_run m run _ = m

pub exited-after_run :
    (m : Vm) (run : KvmRun) → exited m run ≡ after_run m run (exit_kind run.exit_reason)
unfolding exit_kind
exited-after_run m run = elim (Bool-cases (run.exit_reason == 2)) [
  | inl io ↦ rw io refl
  | inr a ↦ elim (Bool-cases (run.exit_reason == 5)) [
    | inl hlt ↦ rw (a, hlt) refl
    | inr b ↦ elim (Bool-cases (run.exit_reason == 9)) [
      | inl fail ↦ rw (a, b, fail) refl
      | inr c ↦ elim (Bool-cases (run.exit_reason == 17)) [
        | inl internal ↦ rw (a, b, c, internal) refl
        | inr d ↦ rw (a, b, c, d) refl
      ]
    ]
  ]
]

pub handle_exit-AfterExit :
    (run : KvmRun) (kind : ExitKind) (held : Held) (r : ℕ) (s : Text) (e : ℕ)
    → Always step
        (AfterExit held r)
        (handle_exit run kind)
        (after_run (machine held r 0 s s) run kind)
        e
unfolding handle_exit
handle_exit-AfterExit run ExitKind.exit_io held r s e =
    Always-then step (AfterIo held r (with_exit run s)) (AfterExit held r) (handle_io_exit run) _
      (after_io (machine held r 0 s s) run) e (handle_io_exit-shows run held r s e)
      (λ u m' e' same. (with_exit run s, same)) (λ x m' e' d. d)
handle_exit-AfterExit run ExitKind.exit_hlt held r s e = (s, ap (machine held r 1 s) (append-nil s))
handle_exit-AfterExit run ExitKind.exit_fail_entry held r s e = (s, refl)
handle_exit-AfterExit run ExitKind.exit_internal_error held r s e = (s, refl)
handle_exit-AfterExit run ExitKind.exit_other held r s e = (s, refl)

-- After the loop: left at a label, or ended, or still running after all its rounds.
abbrev pub Looped : Held → ℕ → ℕ → Vm → ℕ → End Leave → Type 0
Looped held k r m e (End.returned l) = (n : ℕ) × (s : Text) × (m ≡ machine held n (halts_at l) s s)
Looped held k r m e (End.stopped Stop.unfinished) = (s : Text) × (m ≡ machine held (r + k) 0 s s)
Looped held k r m e (End.stopped x) = Died m x

pub Died-Looped :
    (held : Held) (k r : ℕ) (x : Stop) (m : Vm) (e : ℕ)
    → Died m x
    → Looped held k r m e (End.stopped x)
Died-Looped held k r (Stop.exits n) m e d = d
Died-Looped held k r (Stop.exits_now n) m e d = d
Died-Looped held k r Stop.gone m e d = d
Died-Looped held k r Stop.unfinished m e d = absurd d

pub placed-machine :
    (guest_mem : ℕ)
    → placed (some (guest_mem + guest_entry)) (some (whole_memory guest_mem)) (some start_regs)
      ≡ true
placed-machine guest_mem = rw (==_refl (guest_mem + guest_entry)) refl

-- The vCPU is run when it is ready.
pub ran-machine :
    (held : Held) (r : ℕ) (s : Text) → ran (machine held r 0 s s) ≡ machine held (r + 1) 0 s s
ran-machine held r s =
    ap (λ b. record (machine held (r + 1) 0 s s) { early = if b then 0 else 0 + 1 })
      (placed-machine held.guest_mem)

pub later-Looped :
    (held : Held) (k r : ℕ) (m : Vm) (e : ℕ) (x : End Leave)
    → Looped held k (r + 1) m e x
    → Looped held (suc k) r m e x
later-Looped held k r m e (End.returned l) h = h
later-Looped held k r m e (End.stopped Stop.unfinished) h =
    (h.0, h.1 ∙ ap (λ n. machine held n 0 h.0 h.0) (omega arith))
later-Looped held k r m e (End.stopped (Stop.exits n)) h = h
later-Looped held k r m e (End.stopped (Stop.exits_now n)) h = h
later-Looped held k r m e (End.stopped Stop.gone) h = h

pub run_failed-Looped :
    (k : ℕ) (held : Held) (r : ℕ) (s : Text) (e : ℕ) (rest : Prog Leave)
    → Always step (Looped held (suc k) r) rest (machine held (r + 1) 0 s s) e
    → Always step (Looped held (suc k) r) (run_failed rest) (machine held (r + 1) 0 s s) e
unfolding run_failed die
run_failed-Looped k held r s e rest h = elim (Bool-cases (e == eintr)) [
  | inl interrupted ↦ rw (interrupted, Always) h
  | inr broken ↦ rw (broken, Always) (refl, refl)
]

pub after_exit-Looped :
    (k : ℕ) (held : Held) (r : ℕ) (rest : Prog Leave)
    → ((s : Text) (e : ℕ) → Always step (Looped held (suc k) r) rest (machine held (r + 1) 0 s s) e)
    → (handled : Handled) (m : Vm) (e : ℕ) → AfterExit held (r + 1) m e (End.returned handled)
    → Always step (Looped held (suc k) r) (after_exit rest handled) m e
after_exit-Looped k held r rest h Handled.again m e a =
    subst (λ x. Always step (Looped held (suc k) r) rest x e) (sym a.1) (h a.0 e)
after_exit-Looped k held r rest h (Handled.leave l) m e a = (r + 1, a.0, a.1)

pub run_loop-Looped :
    (k : ℕ) (held : Held) (r : ℕ) (s : Text) (e : ℕ)
    → Always step (Looped held k r) (run_loop k held.vcpu_fd) (machine held r 0 s s) e
unfolding run_loop
run_loop-Looped zero held r s e = (s, ap (λ n. machine held n 0 s s) (omega arith))
run_loop-Looped (suc k) held r s e =
    let rest : (s' : Text) (e' : ℕ)
        → Always step (Looped held (suc k) r) (run_loop k held.vcpu_fd)
            (machine held (r + 1) 0 s' s') e' =
      λ s' e'.
        Always-weaken step (Looped held k (r + 1)) (Looped held (suc k) r) (run_loop k held.vcpu_fd)
          (machine held (r + 1) 0 s' s') e' (later-Looped held k r)
          (run_loop-Looped k held (r + 1) s' e') in
    on_answer _
      (λ x.
        subst (λ m. Always step (Looped held (suc k) r) (run_failed (run_loop k held.vcpu_fd)) m x)
          (sym (ran-machine held r s))
          (run_failed-Looped k held r s x (run_loop k held.vcpu_fd) (rest s x)))
      (λ run.
        subst
          (λ m.
            Always step (Looped held (suc k) r)
              (handle_exit run (exit_kind run.exit_reason)
                >>= (λ handled. after_exit (run_loop k held.vcpu_fd) handled))
              m e)
          (sym (
            ap (λ m. exited m run) (ran-machine held r s)
            ∙ exited-after_run (machine held (r + 1) 0 s s) run))
          (Always-then step (AfterExit held (r + 1)) (Looped held (suc k) r)
            (handle_exit run (exit_kind run.exit_reason)) _
            (after_run (machine held (r + 1) 0 s s) run (exit_kind run.exit_reason)) e
            (handle_exit-AfterExit run (exit_kind run.exit_reason) held (r + 1) s e)
            (after_exit-Looped k held r (run_loop k held.vcpu_fd) rest)
            (λ x m' e' d. Died-Looped held (suc k) r x m' e' d)))
