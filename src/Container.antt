-- ===== src/Container.antt =====
-- src/part-07-container/mini_container.c: a command in namespaces of its own, below another root.
pub mod Child
pub mod Parent
use Prim.Native.String.{String}
use mini_isolation_lab.Base.{
  ℕ, Bool, true, false, Option, none, some, List, [], ◌∷◌, ◌++◌, length, ◌+◌, ◌*◌, ◌==◌, ◌!=◌, not,
  if◌then◌else◌,
}
use mini_isolation_lab.Host.{
  Text, lit, text, number, error_text, Flag, WaitStatus, exited, signaled, Call, Answer, done,
  failed, int_value, Prog, last, ret, exit, ◌>>=◌, ◌>>◌, sys, do_call, errno, put_errno, printf,
  fprintf, perror, exit_failure, eexist, enoent,
}
use mini_isolation_lab.Host.Format.{chars, decimal, snprintf}

abbrev pub stack_size : ℕ
stack_size = 1024 * 1024

pub record ChildConfig : Type 0 where
  -- The command and its arguments: `argv[0]`, and the whole of `argv`.
  pub command : Text
  pub argv : List Text
  pub rootfs : Text
  pub sync_fd : ℕ

unfoldable pub die : {A : Type 0} → String → Prog A
die msg = perror msg >> exit exit_failure

unfoldable pub warn_errno : String → Prog (Unit {0})
warn_errno msg = do
  e ← errno
  fprintf (lit "warning: " ∷ lit msg ∷ lit ": " ∷ error_text e ∷ lit "\n" ∷ [])

-- `true` for 0 and `false` for -1. A short write leaves `errno` as it was.
unfoldable pub write_file : Text → Text → Prog Bool
write_file path value = do
  opened ← sys (Call.open_file path (Flag.o_wronly ∷ Flag.o_cloexec ∷ []))
  elim opened [
    | failed e ↦ ret false
    | done fd ↦ do
      written ← sys (Call.write_fd fd value)
      if int_value written == length value
          then (do do_call (Call.close_fd fd); ret true)
          else (do saved ← errno; do_call (Call.close_fd fd); put_errno saved; ret false)
  ]

abbrev pub cgroup_dir : ℕ → Text
cgroup_dir child_pid =
    (snprintf 256 (chars "/sys/fs/cgroup/mini-container-" ++ decimal child_pid)).0

abbrev pub cgroup_file : Text → String → Text
cgroup_file dir file = (snprintf 512 (dir ++ chars file)).0

-- A file of the cgroup, with a warning if it is not written.
unfoldable pub write_or_warn : Text → Text → String → Prog (Unit {0})
write_or_warn path value msg = do
  good ← write_file path value
  if good then ret tt else warn_errno msg

unfoldable pub limit_cgroup : Text → ℕ → Prog (Unit {0})
limit_cgroup dir child_pid = do
  write_or_warn (cgroup_file dir "/pids.max") (chars "64\n") "could not set pids.max"
  write_or_warn (cgroup_file dir "/memory.max") (chars "134217728\n") "could not set memory.max"
  write_or_warn (cgroup_file dir "/cgroup.procs") (snprintf 64 (decimal child_pid ++ chars "\n")).0
      "could not move child into cgroup"

unfoldable pub try_apply_cgroup_limits : ℕ → Prog (Unit {0})
try_apply_cgroup_limits child_pid = do
  let dir = cgroup_dir child_pid
  made ← sys (Call.mkdir dir 0x1ed)
  e ← errno
  let bad : Bool = elim made [ done n ↦ false | failed _ ↦ e != eexist ]
  if bad
      then warn_errno "could not create cgroup; run as root on a cgroup v2 Linux host"
      else limit_cgroup dir child_pid

unfoldable pub wait_for_parent : ℕ → Prog (Unit {0})
wait_for_parent fd = do
  got ← sys (Call.read_fd fd 1)
  elim got [
    | failed e ↦ die "read sync pipe"
    | done n ↦
        if n == 0
        then (do fprintf (lit "parent exited before container started\n" ∷ []); exit exit_failure)
        else do_call (Call.close_fd fd)
  ]

-- `if (call < 0) die(msg);`
unfoldable pub must : Answer ℕ → String → Prog (Unit {0})
must (done n) msg = ret tt
must (failed e) msg = die msg

-- `child_main` from the mount of /proc on.
unfoldable pub start_command : ChildConfig → Prog ℕ
start_command config = do
  mounted ←
      sys
        (Call.mount (some (chars "proc")) (some (chars "/proc")) (some (chars "proc")) [] (some []))
  must mounted "mount /proc"
  pid ← sys Call.getpid
  printf (
      lit "inside container: hostname=mini-container, pid="
      ∷ number (int_value pid)
      ∷ lit "\n"
      ∷ [])
  last (Call.execvp config.command config.argv) (λ _. die "execvp")

-- `child_main` from the root on.
unfoldable pub enter_root : ChildConfig → Prog ℕ
enter_root config = do
  rooted ← sys (Call.chroot config.rootfs)
  must rooted "chroot"
  moved ← sys (Call.chdir (chars "/"))
  must moved "chdir /"
  made ← sys (Call.mkdir (chars "/proc") 0x16d)
  e ← errno
  let bad : Bool = elim made [ done n ↦ false | failed _ ↦ e != eexist ]
  if bad then die "mkdir /proc" else start_command config

unfoldable pub child_main : ChildConfig → Prog ℕ
child_main config = do
  wait_for_parent config.sync_fd
  named ← sys (Call.sethostname (chars "mini-container"))
  must named "sethostname"
  private ← sys (Call.mount none (some (chars "/")) none (Flag.ms_rec ∷ Flag.ms_private ∷ []) none)
  must private "make mounts private"
  enter_root config

unfoldable pub usage : Text → Prog (Unit {0})
usage program = do
  fprintf (lit "usage: sudo " ∷ text program ∷ lit " ROOTFS COMMAND [ARG...]\n" ∷ [])
  fprintf (lit "example: sudo " ∷ text program ∷ lit " ./rootfs /bin/sh\n" ∷ [])

-- The value of `main` for the status of the child.
abbrev pub exit_status : WaitStatus → ℕ
exit_status (exited code) = code
exit_status (signaled sig) = 128 + sig
exit_status (WaitStatus.other_status s) = exit_failure

-- `main` once the child is released.
unfoldable pub collect : (stack child_pid : ℕ) → Prog ℕ
collect stack child_pid = do
  waited ← sys (Call.waitpid child_pid)
  elim waited [
    | failed e ↦ die "waitpid"
    | done (pid, status) ↦ do
      removed ← sys (Call.rmdir (cgroup_dir child_pid))
      e ← errno
      let bad : Bool = elim removed [ done n ↦ false | failed _ ↦ e != enoent ]
      if bad then warn_errno "could not remove cgroup directory" else ret tt
      do_call (Call.free stack)
      ret (exit_status status)
  ]

-- `main` in the parent, once it has the child.
unfoldable pub parent_run : (read_end write_end stack child_pid : ℕ) → Prog ℕ
parent_run read_end write_end stack child_pid = do
  do_call (Call.close_fd read_end)
  try_apply_cgroup_limits child_pid
  sent ← sys (Call.write_fd write_end (chars "1"))
  if int_value sent != 1
      then die "write sync pipe"
      else (do do_call (Call.close_fd write_end); collect stack child_pid)

abbrev pub flags : List Flag
flags =
    Flag.clone_newuts ∷ Flag.clone_newpid ∷ Flag.clone_newns ∷ Flag.clone_newipc ∷ Flag.clone_newnet
    ∷ Flag.sigchld ∷ []

-- `main` with the arguments; the child that it clones runs `child_main` on `config rootfs argv sync_fd`.
unfoldable pub spawn : Prog ℕ
spawn = do
  got ← sys (Call.malloc stack_size)
  elim got [
    | failed e ↦ die "malloc stack"
    | done stack ↦ do
      piped ← sys Call.pipe
      elim piped [
        | failed e ↦ die "pipe"
        | done (read_end, write_end) ↦ do
          cloned ← sys (Call.clone flags)
          elim cloned [
            | failed e ↦ die "clone"
            | done child_pid ↦ parent_run read_end write_end stack child_pid
          ]
      ]
  ]

-- What the child is given, when there are at least two arguments.
abbrev pub config_of : List Text → ℕ → Option ChildConfig
config_of (rootfs ∷ command ∷ args) sync_fd =
    some (record { command = command; argv = command ∷ args; rootfs = rootfs; sync_fd = sync_fd })
config_of _ sync_fd = none

-- The arguments are those after the program's name.
unfoldable pub main : Text → List Text → Prog ℕ
main program (rootfs ∷ command ∷ args) = spawn
main program _ = do usage program; ret exit_failure
