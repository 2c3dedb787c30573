-- ===== src/Hardening.antt =====
-- src/part-11-hardening/container_hardening.c: a child that enters strict seccomp and makes a call it forbids.
pub mod Killed
use Prim.Native.String.{String}
use mini_isolation_lab.Base.{ℕ, Bool, true, false, List, [], ◌∷◌, ◌==◌, if◌then◌else◌}
use mini_isolation_lab.Host.{
  lit, number, error_text, signal_text, WaitStatus, exited, signaled, Call, done, failed, Prog,
  last, ret, exit, exit_now, ◌>>=◌, ◌>>◌, sys, do_call, errno, printf, fprintf, fflush, perror,
  exit_success, exit_failure,
}
use mini_isolation_lab.Host.Format.{chars}
use mini_isolation_lab.Status.{print_status_field}

-- The number of <signal.h>.
abbrev pub sigkill : ℕ
sigkill = 9

unfoldable pub die : {A : Type 0} → String → Prog A
die msg = perror msg >> exit exit_failure

unfoldable pub print_status_snapshot : ℕ → String → Prog (Unit {0})
print_status_snapshot fuel label = do
  print_status_field fuel label "NoNewPrivs:"
  print_status_field fuel label "Seccomp:"
  print_status_field fuel label "CapEff:"

-- `child_demo` under strict seccomp; the call of `getpid` may end the process.
unfoldable pub forbidden : Prog ℕ
forbidden = do
  written ← sys (Call.write_fd 1 (chars "child: write(2) still works after strict seccomp\n"))
  elim written [
    | failed e ↦ exit_now 3
    | done n ↦ last Call.syscall_getpid (λ _. do
      do_call (Call.write_fd 1 (chars "child: unexpected, getpid survived strict seccomp\n"))
      exit_now 4)
  ]

-- `child_demo` once no new privileges can be had.
unfoldable pub enter_strict : Prog ℕ
enter_strict = do
  printf (lit "child: entering seccomp strict mode\n" ∷ [])
  fflush
  set ← sys Call.set_seccomp_strict
  elim set [
    | failed err ↦ do
      e ← errno
      fprintf (
          lit "prctl PR_SET_SECCOMP strict failed: "
          ∷ error_text e
          ∷ lit "\nhint: strict mode depends on kernel seccomp support. "
          ∷ lit "The no_new_privs status above still shows the first "
          ∷ lit "hardening step.\n"
          ∷ [])
      exit_now 2
    | done n ↦ forbidden
  ]

-- It does not return.
unfoldable pub child_demo : ℕ → Prog ℕ
child_demo fuel = do
  print_status_snapshot fuel "child before hardening"
  set ← sys Call.set_no_new_privs
  elim set [
    | failed e ↦ die "prctl PR_SET_NO_NEW_PRIVS"
    | done n ↦ do print_status_snapshot fuel "child after no_new_privs"; enter_strict
  ]

-- `main` with the status of the child.
unfoldable pub report : WaitStatus → Prog ℕ
report (signaled sig) = do
  printf (
      lit "parent: child was terminated by signal "
      ∷ number sig
      ∷ lit " ("
      ∷ signal_text sig
      ∷ lit ")\n"
      ∷ [])
  if sig == sigkill
      then (do
        printf (lit "parent: strict seccomp blocked the forbidden syscall\n" ∷ [])
        ret exit_success)
      else ret exit_failure
report (exited code) = do
  printf (lit "parent: child exited with status " ∷ number code ∷ lit "\n" ∷ [])
  if code == 2
      then fprintf (
          lit "parent: strict seccomp was not applied, so the demo did "
          ∷ lit "not prove syscall blocking\n"
          ∷ [])
      else ret tt
  ret exit_failure
report (WaitStatus.other_status s) = do
  fprintf (lit "parent: child ended in an unexpected wait state\n" ∷ [])
  ret exit_failure

unfoldable pub collect : ℕ → Prog ℕ
collect child = do
  waited ← sys (Call.waitpid child)
  elim waited [ failed e ↦ die "waitpid" | done (pid, status) ↦ report status ]

unfoldable pub main : ℕ → Prog ℕ
main fuel = do
  printf (lit "host: this demo applies hardening in a child process\n" ∷ [])
  print_status_snapshot fuel "parent"
  forked ← sys Call.fork
  elim forked [
    | failed e ↦ die "fork"
    | done child ↦ if child == 0 then child_demo fuel else collect child
  ]
