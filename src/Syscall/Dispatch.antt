-- ===== src/Syscall/Dispatch.antt =====
-- `ksyscall_dispatch` on a state in order, call by call.
use mini_isolation_lab.Base.{
  ℕ, ◌+◌, ◌≡◌, inl, inr, refl, ap, ◌∙◌, Bool, true, false, arith, Option, none, some, List, length,
  set, Bool-cases, Option-cases, ◌==◌,
}
use mathlib.Core.Path.{subst}
use mathlib.Core.Option.{some-injective}
use mini_isolation_lab.Base.Words.{u32}
use mini_isolation_lab.Machine.{World, ok, KfsNode, with_mem}
use mini_isolation_lab.Machine.Memory.{overlay, peek}
use mini_isolation_lab.Fs.{stat_bytes, sizeof_stat}
use mini_isolation_lab.Fs.Catalog.{Entry}
use mini_isolation_lab.Console.Output.{sent}
use mini_isolation_lab.Syscall.{
  Ktask, KtaskFile, KsyscallRegs, KsyscallError, KsyscallResult, ksyscall_result, failure, no_file,
  nr_read, nr_write, nr_open, nr_close, nr_stat, nr_getpid, nr_exit, beside, sys_read, sys_write,
  sys_open, sys_close, sys_stat, sys_getpid, sys_exit, dispatch_number, ksyscall_dispatch,
  task_contains_user_range,
}
use mini_isolation_lab.Syscall.State.{IsSound, IsBacked, AllFiles-get}
use mini_isolation_lab.Syscall.Keeps.{
  Answers, Keeps-refl, Keeps-set, Keeps-overlay, Keeps-sent, Keeps-read,
}
use mini_isolation_lab.Syscall.Files.{
  open_at, open_at-get, named_file, opened_file, OpenOutcome, sys_open_outcome, closed,
  sys_close-closed,
}
use mini_isolation_lab.Syscall.Read.{next_bytes, next_bytes-fits, read_outcome, sys_read_outcome}
use mini_isolation_lab.Syscall.Stat.{
  stat_outcome, both_inside, sys_stat_outcome, named_file-IsBacked,
}
use mini_isolation_lab.Syscall.Write.{is_output, written, sys_write_outcome}

module _ (es : List Entry) (t : Ktask) (w : World) (s : IsSound es t w) where
  sys_write-Answers :
      (fd ptr len : ℕ) → Answers es t w (beside (some t) (sys_write (some t) fd ptr len) w)
  sys_write-Answers fd ptr len =
      let (n, run) = sys_write_outcome t fd ptr len w s.room s.can_write in
      elim (Bool-cases (is_output fd)) [
        | inr bad ↦ (failure KsyscallError.ebadf, t, w, rw (run, bad), Keeps-refl es t w s)
        | inl good ↦ elim (Bool-cases (task_contains_user_range (some t) ptr len)) [
          | inr outside ↦
              (failure KsyscallError.efault, t, w, rw (run, good, outside), Keeps-refl es t w s)
          | inl inside ↦
              let events = written t (peek w.mem ptr len) in
              (
                ksyscall_result len KsyscallError.success,
                t,
                sent w events n,
                rw (run, good, inside),
                Keeps-sent es t w s events n,
              )
        ]
      ]

  sys_close-Answers : (fd : ℕ) → Answers es t w (sys_close (some t) fd w)
  sys_close-Answers fd = elim (Option-cases (open_at t.files fd)) [
    | inl e ↦ (
      failure KsyscallError.ebadf,
      t,
      w,
      sys_close-closed t fd w s.table ∙ ap (λ o. ok (closed t fd o) w) e,
      Keeps-refl es t w s,
    )
    | inr (f, e) ↦ (
      ksyscall_result 0 KsyscallError.success,
      record t { files = set t.files fd no_file },
      w,
      sys_close-closed t fd w s.table ∙ ap (λ o. ok (closed t fd o) w) e,
      Keeps-set es t w s fd no_file (record { node = λ n h. cc; offset = omega arith }),
    )
  ]

  sys_open-Answers : (ptr len : ℕ) → Answers es t w (sys_open (some t) ptr len w)
  sys_open-Answers ptr len =
      let (out, run, good) = sys_open_outcome es t ptr len w s in
      go (task_contains_user_range (some t) ptr len) (named_file es w ptr len) out run good
        (λ n hit. (named_file-IsBacked es t ptr len w n s hit).1)
    where
      go :
          (inside : Bool) (file : Option KfsNode) (out : KsyscallResult × Option Ktask)
          → sys_open (some t) ptr len w ≡ ok out w
          → OpenOutcome inside file t out
          → ((n : KfsNode) → file ≡ some n → IsBacked w.mem t.user_base t.user_len n)
          → Answers es t w (sys_open (some t) ptr len w)
      go false file out run good backed =
          (failure KsyscallError.efault, t, w, rw (run, good), Keeps-refl es t w s)
      go true none out run good backed =
          (failure KsyscallError.enoent, t, w, rw (run, good), Keeps-refl es t w s)
      go true (some n) out run (inr (full, good)) backed =
          (failure KsyscallError.emfile, t, w, rw (run, good), Keeps-refl es t w s)
      go true (some n) out run (inl (fd, from, to, free, before, good)) backed = (
        ksyscall_result fd KsyscallError.success,
        record t { files = set t.files fd (opened_file n) },
        w,
        rw (run, good),
        Keeps-set es t w s fd (opened_file n) (record {
          node = λ k e.
              subst (IsBacked w.mem t.user_base t.user_len) (some-injective n k e) (backed n refl);
          offset = omega arith;
        }),
      )

  sys_read-Answers : (fd dst len : ℕ) → Answers es t w (sys_read (some t) fd dst len w)
  sys_read-Answers fd dst len = elim (Option-cases (open_at t.files fd)) [
    | inl e ↦ (failure KsyscallError.ebadf, t, w, rw (run, e), Keeps-refl es t w s)
    | inr (f, e) ↦ elim (Bool-cases (task_contains_user_range (some t) dst len)) [
      | inr outside ↦
          (failure KsyscallError.efault, t, w, rw (run, e, outside), Keeps-refl es t w s)
      | inl inside ↦
          let o =
            AllFiles-get w.mem t.user_base t.user_len t.files fd f s.files
              (open_at-get t.files fd f e) in
          let bs = next_bytes w.mem f.node f.offset len in
          let (most, fits) = next_bytes-fits w.mem t.user_base t.user_len f len o in
          let f' : KtaskFile = record f { offset = f.offset + length bs } in
          (
            ksyscall_result (length bs) KsyscallError.success,
            record t { files = set t.files fd f' },
            with_mem w (overlay w.mem dst bs),
            rw (run, e, inside),
            Keeps-read es t w s fd dst len f bs inside most o fits,
          )
    ]
  ]
    where
      run :
          sys_read (some t) fd dst len w
          ≡ read_outcome t fd dst len w
              (open_at t.files fd)
              (task_contains_user_range (some t) dst len)
      run = sys_read_outcome es t fd dst len w s

  sys_stat-Answers :
      (path_ptr path_len stat_ptr : ℕ)
      → Answers es t w (beside (some t) (sys_stat (some t) path_ptr path_len stat_ptr) w)
  sys_stat-Answers path_ptr path_len stat_ptr =
      elim (Bool-cases (both_inside t path_ptr path_len stat_ptr)) [
        | inr outside ↦ (failure KsyscallError.efault, t, w, rw (run, outside), Keeps-refl es t w s)
        | inl inside ↦ elim (Option-cases (named_file es w path_ptr path_len)) [
          | inl e ↦ (failure KsyscallError.enoent, t, w, rw (run, inside, e), Keeps-refl es t w s)
          | inr (n, e) ↦
              let bs = stat_bytes n.size n.mode 1 in
              (
                ksyscall_result 0 KsyscallError.success,
                t,
                with_mem w (overlay w.mem stat_ptr bs),
                rw (run, inside, e),
                Keeps-overlay es t w s stat_ptr sizeof_stat bs (ground arith) (omega arith),
              )
        ]
      ]
    where
      run :
          sys_stat (some t) path_ptr path_len stat_ptr w
          ≡ stat_outcome
              (both_inside t path_ptr path_len stat_ptr)
              (named_file es w path_ptr path_len)
              stat_ptr
              w
      run = sys_stat_outcome es t path_ptr path_len stat_ptr w s

  sys_getpid-Answers : Answers es t w (beside (some t) (sys_getpid (some t)) w)
  unfolding sys_getpid
  sys_getpid-Answers = elim (Bool-cases (t.pid == 0)) [
    | inl e ↦ (failure KsyscallError.einval, t, w, rw e, Keeps-refl es t w s)
    | inr e ↦ (ksyscall_result t.pid KsyscallError.success, t, w, rw e, Keeps-refl es t w s)
  ]

  -- On every number the dispatcher answers.
  dispatch_number-Answers :
      (nr : ℕ) (regs : KsyscallRegs) → Answers es t w (dispatch_number nr (some t) regs w)
  unfolding dispatch_number sys_exit
  dispatch_number-Answers nr regs =
      let a0 = regs.arg0 in
      let a1 = regs.arg1 in
      let a2 = regs.arg2 in
      elim (Bool-cases (nr == nr_read)) [
        | inl e ↦ rw e (sys_read-Answers a0 a1 a2)
        | inr e0 ↦ elim (Bool-cases (nr == nr_write)) [
          | inl e ↦ rw (e0, e) (sys_write-Answers a0 a1 a2)
          | inr e1 ↦ elim (Bool-cases (nr == nr_open)) [
            | inl e ↦ rw (e0, e1, e) (sys_open-Answers a0 a1)
            | inr e2 ↦ elim (Bool-cases (nr == nr_close)) [
              | inl e ↦ rw (e0, e1, e2, e) (sys_close-Answers a0)
              | inr e3 ↦ elim (Bool-cases (nr == nr_stat)) [
                | inl e ↦ rw (e0, e1, e2, e3, e) (sys_stat-Answers a0 a1 a2)
                | inr e4 ↦ elim (Bool-cases (nr == nr_getpid)) [
                  | inl e ↦ rw (e0, e1, e2, e3, e4, e) sys_getpid-Answers
                  | inr e5 ↦ elim (Bool-cases (nr == nr_exit)) [
                    | inl e ↦
                        rw (e0, e1, e2, e3, e4, e5, e)
                          (exit_result, t, w, refl, Keeps-refl es t w s)
                    | inr e6 ↦
                        rw (e0, e1, e2, e3, e4, e5, e6)
                          (failure KsyscallError.enosys, t, w, refl, Keeps-refl es t w s)
                  ]
                ]
              ]
            ]
          ]
        ]
      ]
    where
      exit_result : KsyscallResult
      exit_result = record {
        value = 0;
        error = KsyscallError.success;
        should_exit = true;
        exit_status = u32 regs.arg0;
      }

-- For every contents of the registers the dispatcher returns to a task in order: no access faults
-- and no loop runs out, the state is in order after it, memory outside the user memory is as it
-- was, the mounted files stay, and of the task only its table of files differs. Hypothesis: the
-- state is in order before.
pub ksyscall_dispatch-Answers :
    (es : List Entry) (t : Ktask) (w : World) (regs : KsyscallRegs)
    → IsSound es t w
    → Answers es t w (ksyscall_dispatch (some t) (some regs) w)
unfolding ksyscall_dispatch
ksyscall_dispatch-Answers es t w regs s = dispatch_number-Answers es t w s (u32 regs.nr) regs
