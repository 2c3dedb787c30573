-- ===== src/Syscall/Calls.antt =====
-- What each number of `ksyscall_dispatch` does with the first three arguments.
use mathlib.Core.Path.{subst}
use mini_isolation_lab.Base.{
  ℕ, zero, suc, ◌≡◌, sym, ap, ◌∙◌, true, arith, Option, none, some, List, [], ◌∷◌, get_elem?, ◌==◌,
  if◌then◌else◌,
}
use mini_isolation_lab.Base.Words.{u32}
use mini_isolation_lab.Machine.{World, ok}
use mini_isolation_lab.Fs.Catalog.{Entry}
use mini_isolation_lab.Syscall.{
  Ktask, KsyscallRegs, KsyscallError, KsyscallResult, ksyscall_result, failure, beside,
  task_contains_user_range, dispatch_number, sys_getpid, sys_exit, ksyscall_dispatch,
}
use mini_isolation_lab.Syscall.State.{IsSound}
use mini_isolation_lab.Syscall.Files.{
  open_at, named_file, OpenOutcome, sys_open_outcome, closed, sys_close-closed,
}
use mini_isolation_lab.Syscall.Read.{read_outcome, sys_read_outcome}
use mini_isolation_lab.Syscall.Stat.{stat_outcome, both_inside, sys_stat_outcome}
use mini_isolation_lab.Syscall.Write.{is_output, write_outcome, sys_write_outcome}

pub data Kind : Type 0 where
  read_call write_call open_call close_call stat_call getpid_call exit_call : Kind

-- The calls in the order of their numbers, from 0 on.
abbrev pub kind_of : ℕ → Option Kind
kind_of = get_elem? (
    Kind.read_call ∷ Kind.write_call ∷ Kind.open_call ∷ Kind.close_call ∷ Kind.stat_call
    ∷ Kind.getpid_call ∷ Kind.exit_call ∷ [])

-- How a call of this kind ends, with its result, its task and its world.
abbrev pub Called :
    Option Kind
    → List Entry
    → Ktask
    → (a0 a1 a2 : ℕ) → World
    → KsyscallResult × Option Ktask
    → World
    → Type 0
Called (some Kind.read_call) es t a0 a1 a2 w out w' =
    ok out w'
    ≡ read_outcome t a0 a1 a2 w (open_at t.files a0) (task_contains_user_range (some t) a1 a2)
Called (some Kind.write_call) es t a0 a1 a2 w out w' =
    (n : ℕ) × (ok out w'
      ≡ beside (some t)
          (λ v. write_outcome (is_output a0) (task_contains_user_range (some t) a1 a2) t a1 a2 v n)
          w)
Called (some Kind.open_call) es t a0 a1 a2 w out w' =
    OpenOutcome (task_contains_user_range (some t) a0 a1) (named_file es w a0 a1) t out × (w' ≡ w)
Called (some Kind.close_call) es t a0 a1 a2 w out w' =
    ok out w' ≡ ok (closed t a0 (open_at t.files a0)) w
Called (some Kind.stat_call) es t a0 a1 a2 w out w' =
    ok out w'
    ≡ beside (some t) (λ v. stat_outcome (both_inside t a0 a1 a2) (named_file es v a0 a1) a2 v) w
Called (some Kind.getpid_call) es t a0 a1 a2 w out w' =
    ok out w'
    ≡ ok
        (
          if t.pid == 0
              then failure KsyscallError.einval
              else ksyscall_result t.pid KsyscallError.success,
          some t,
        )
        w
Called (some Kind.exit_call) es t a0 a1 a2 w out w' =
    ok out w'
    ≡ ok
        (
          record {
            value = 0;
            error = KsyscallError.success;
            should_exit = true;
            exit_status = u32 a0;
          },
          some t,
        )
        w
Called none es t a0 a1 a2 w out w' = ok out w' ≡ ok (failure KsyscallError.enosys, some t) w

module _ (es : List Entry) (t : Ktask) (w : World) (s : IsSound es t w) (regs : KsyscallRegs)
    (out : KsyscallResult × Option Ktask) (w' : World) where
  dispatch_number-Called :
      (nr : ℕ)
      → dispatch_number nr (some t) regs w ≡ ok out w'
      → Called (kind_of nr) es t regs.arg0 regs.arg1 regs.arg2 w out w'
  unfolding dispatch_number sys_getpid sys_exit
  dispatch_number-Called zero run =
      sym run ∙ sys_read_outcome es t regs.arg0 regs.arg1 regs.arg2 w s
  dispatch_number-Called (suc zero) run =
      let (n, e) = sys_write_outcome t regs.arg0 regs.arg1 regs.arg2 w s.room s.can_write in
      (n, sym run ∙ ap (λ x. beside (some t) (λ v. x) w) e)
  dispatch_number-Called (suc (suc zero)) run =
      let (made, e, good) = sys_open_outcome es t regs.arg0 regs.arg1 w s in
      let same : ok made w ≡ ok out w' = sym e ∙ run in
      let outs : made ≡ out = cc in
      let worlds : w' ≡ w = cc in
      (
        subst
            (λ x.
              OpenOutcome (task_contains_user_range (some t) regs.arg0 regs.arg1)
                (named_file es w regs.arg0 regs.arg1) t x)
            outs good,
        worlds,
      )
  dispatch_number-Called (suc (suc (suc zero))) run =
      sym run ∙ sys_close-closed t regs.arg0 w s.table
  dispatch_number-Called (suc (suc (suc (suc zero)))) run =
      sym run
      ∙ ap (λ x. beside (some t) (λ v. x) w)
          (sys_stat_outcome es t regs.arg0 regs.arg1 regs.arg2 w s)
  dispatch_number-Called (suc (suc (suc (suc (suc zero))))) run = ground (arith, run)
  dispatch_number-Called (suc (suc (suc (suc (suc (suc zero)))))) run = sym run
  dispatch_number-Called (suc (suc (suc (suc (suc (suc (suc n))))))) run =
      let refused : dispatch_number (suc (suc (suc (suc (suc (suc (suc n))))))) (some t) regs w
          ≡ ok (failure KsyscallError.enosys, some t) w =
        ground arith in
      sym run ∙ refused

  pub ksyscall_dispatch-Called :
      ksyscall_dispatch (some t) (some regs) w ≡ ok out w'
      → Called (kind_of (u32 regs.nr)) es t regs.arg0 regs.arg1 regs.arg2 w out w'
  unfolding ksyscall_dispatch
  ksyscall_dispatch-Called run = dispatch_number-Called (u32 regs.nr) run
