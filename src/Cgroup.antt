-- ===== src/Cgroup.antt =====
-- src/part-06-cgroups/cgroup_limit.c: a child under limits of processes and memory. A function that returns
-- 0 or -1 gives `true` or `false`.
pub mod Quiet
pub mod Cleanup
use Prim.Native.String.{String}
use mini_isolation_lab.Base.{
  ℕ, zero, suc, Bool, true, false, List, [], ◌∷◌, ◌++◌, Option, none, some, length, leb, not, ◌==◌,
  ◌!=◌, ◌||◌, ◌&&◌, if◌then◌else◌,
}
use mini_isolation_lab.Host.{
  Text, Piece, lit, text, number, error_text, o_wronly, o_cloexec, exited, signaled, Call, Answer,
  done, failed, Prog, ret, exit_now, ◌>>=◌, ◌>>◌, sys, do_call, errno, put_errno, printf, fprintf,
  fflush, int_value, perror, out_of_fuel, eperm, enoent, eintr, eio, eacces, ebusy, eexist, einval,
  erofs, enametoolong, WaitStatus,
}
use mini_isolation_lab.Host.Format.{chars, decimal, snprintf}

unfoldable pub write_file : Text → Text → Prog Bool
write_file path value = do
  opened ← sys (Call.open_file path (o_wronly ∷ o_cloexec ∷ []))
  elim opened [
    | failed e ↦ ret false
    | done fd ↦ do
      let len = length value
      written ← sys (Call.write_fd fd value)
      elim written [
        | failed e ↦ do saved ← errno; do_call (Call.close_fd fd); put_errno saved; ret false
        | done n ↦
            if n == len
            then (do do_call (Call.close_fd fd); ret true)
            else (do do_call (Call.close_fd fd); put_errno eio; ret false)
      ]
  ]

unfoldable pub write_filef : Text → ℕ → Prog Bool
write_filef path value = do
  let (buf, n) = snprintf 64 (decimal value ++ chars "\n")
  if leb 64 n then (do put_errno einval; ret false) else write_file path buf

-- `path_join` with a buffer of this size: the path, or nothing with `errno` set.
unfoldable pub path_join : ℕ → Text → Text → Prog (Option Text)
path_join buf_size dir file = do
  let (buf, n) = snprintf buf_size (dir ++ (chars "/" ++ file))
  if leb buf_size n then (do put_errno enametoolong; ret none) else ret (some buf)

unfoldable pub explain_cgroup_error : String → Text → Prog (Unit {0})
explain_cgroup_error action path = do
  e ← errno
  fprintf (lit action ∷ lit " " ∷ text path ∷ lit ": " ∷ error_text e ∷ lit "\n" ∷ [])
  hint e
  where
    hint : ℕ → Prog (Unit {0})
    hint e =
        if (e == eacces) || (e == eperm) || (e == erofs)
        then fprintf (
            lit
              "hint: run as root on a writable cgroup v2 mount (for example: sudo ./part-06-cgroups).\n"
            ∷ [])
        else if e == enoent
        then fprintf (lit "hint: this demo expects cgroup v2 at /sys/fs/cgroup.\n" ∷ [])
        else if e == ebusy
        then fprintf (
            lit "hint: the demo cgroup still has member processes; wait for "
            ∷ lit "them to exit or remove them before retrying.\n"
            ∷ [])
        else ret tt

unfoldable pub set_limit : Text → Text → Text → Prog Bool
set_limit dir file value = do
  joined ← path_join 256 dir file
  elim joined [
    | none ↦ do perror "build cgroup path"; ret false
    | some path ↦ do
      good ← write_file path value
      if good then ret true else (do explain_cgroup_error "write" path; ret false)
  ]

unfoldable pub cleanup_cgroup : Text → Prog Bool
cleanup_cgroup dir = do
  removed ← sys (Call.rmdir dir)
  e ← errno
  let gone : Bool = elim removed [ done n ↦ true | failed _ ↦ e == enoent ]
  if gone then ret true else (do
    explain_cgroup_error "remove" dir
    fprintf (
        lit "cleanup: remove the stale demo cgroup manually when it is empty: rmdir "
        ∷ text dir
        ∷ lit "\n"
        ∷ [])
    ret false)

abbrev pub demo_dir : Text
demo_dir = chars "/sys/fs/cgroup/part-06-cgroup-demo"

-- `getpid` has no error return.
abbrev ask_getpid : Prog ℕ
ask_getpid = do a ← sys Call.getpid; ret (int_value a)

-- What the child does; it does not return.
unfoldable pub child_run : Text → Prog ℕ
child_run dir = do
  joined ← path_join 256 dir (chars "cgroup.procs")
  elim joined [
    | none ↦ do perror "build cgroup path"; exit_now 1
    | some path ↦ do
      pid ← ask_getpid
      good ← write_filef path pid
      if good
          then (do
            again ← ask_getpid
            printf (
                lit "child process "
                ∷ number again
                ∷ lit " is limited by "
                ∷ text dir
                ∷ lit "\n"
                ∷ [])
            printf (lit "pids.max=8 memory.max=64MiB\n" ∷ [])
            fflush
            exit_now 0)
          else (do explain_cgroup_error "write" path; exit_now 1)
  ]

-- The status of the child, if that is what `waitpid` gave.
abbrev pub reaped : ℕ → Answer (ℕ × WaitStatus) → Option WaitStatus
reaped child (failed e) = none
reaped child (done (pid, status)) = if pid == child then some status else none

-- A wait that did not give the child: after a signal, the rest of the loop.
unfoldable pub retry : Prog (Option WaitStatus) → Prog (Option WaitStatus)
retry rest = do e ← errno; if e == eintr then rest else (do perror "waitpid"; ret none)

-- The loop around `waitpid`, with this many rounds.
unfoldable pub wait_loop : ℕ → ℕ → Prog (Option WaitStatus)
wait_loop zero child = out_of_fuel
wait_loop (suc k) child = do
  waited ← sys (Call.waitpid child)
  elim (reaped child waited) [ some status ↦ ret (some status) | none ↦ retry (wait_loop k child) ]

-- The value of `main` after the cgroup is removed.
unfoldable pub exit_status : Option WaitStatus → Prog ℕ
exit_status (some (exited code)) = ret code
exit_status (some (signaled sig)) = do
  fprintf (lit "child terminated by signal " ∷ number sig ∷ lit "\n" ∷ [])
  ret 1
exit_status _ = ret 1

-- `main` in the parent, once it has the child.
unfoldable pub parent_run : ℕ → Text → ℕ → Prog ℕ
parent_run fuel dir child = do
  status ← wait_loop fuel child
  cleaned ← cleanup_cgroup dir
  if cleaned
      then (do printf (lit "cleaned up " ∷ text dir ∷ lit "\n" ∷ []); exit_status status)
      else ret 1

unfoldable pub give_up : Text → Prog ℕ
give_up dir = do cleanup_cgroup dir; ret 1

-- `main` from the first limit on.
unfoldable pub limited : ℕ → Text → Prog ℕ
limited fuel dir = do
  pids ← set_limit dir (chars "pids.max") (chars "8\n")
  if not pids then give_up dir else do
    memory ← set_limit dir (chars "memory.max") (chars "67108864\n")
    if not memory then give_up dir else do
      child ← sys Call.fork
      elim child [
        | failed e ↦ do perror "fork"; give_up dir
        | done pid ↦ if pid == 0 then child_run dir else parent_run fuel dir pid
      ]

unfoldable pub main : ℕ → Prog ℕ
main fuel = do
  made ← sys (Call.mkdir demo_dir 0x1ed)
  e ← errno
  let bad : Bool = elim made [ done n ↦ false | failed _ ↦ e != eexist ]
  if bad then (do explain_cgroup_error "mkdir" demo_dir; ret 1) else limited fuel demo_dir
