-- ===== src/Userns.antt =====
-- src/part-12-userns/userns_map.c: a child in a user namespace of its own, and the parent that maps its ids.
pub mod Entries
pub mod Maps
pub mod Mapping
use Prim.Native.String.{String}
use mini_isolation_lab.Base.{
  ℕ, zero, suc, Bool, true, false, Option, none, some, [], ◌∷◌, ◌++◌, length, ◌*◌, ◌==◌, ◌!=◌, ◌||◌,
  if◌then◌else◌,
}
use mini_isolation_lab.Host.{
  Text, lit, text, number, error_text, Flag, WaitStatus, exited, signaled, Call, Answer, done,
  failed, int_value, Prog, ret, exit, exit_now, ◌>>=◌, ◌>>◌, sys, do_call, errno, printf, fprintf,
  fflush, perror, exit_success, exit_failure, enoent, eperm, eacces, einval,
}
use mini_isolation_lab.Host.Format.{chars, decimal, snprintf}

abbrev pub stack_size : ℕ
stack_size = 1024 * 1024

unfoldable pub die : {A : Type 0} → String → Prog A
die msg = perror msg >> exit exit_failure

unfoldable pub explain_clone_userns_error : ℕ → Prog (Unit {0})
explain_clone_userns_error err = do
  fprintf (lit "clone(CLONE_NEWUSER): " ∷ error_text err ∷ lit "\n" ∷ [])
  if (err == eperm) || (err == eacces)
      then fprintf (
          lit "hint: this host may disable unprivileged user namespaces. "
          ∷ lit "Try a Linux host where user namespaces are enabled, or run "
          ∷ lit "the lesson with appropriate privileges.\n"
          ∷ [])
      else if err == einval
      then fprintf (
          lit "hint: this kernel may not support user namespaces or may "
          ∷ lit "have been built without CONFIG_USER_NS.\n"
          ∷ [])
      else ret tt

-- A write that failed or was short, which ends the program.
unfoldable pub write_failed : Text → ℕ → Answer ℕ → Prog (Unit {0})
write_failed path fd written = do
  e ← errno
  fprintf (
      lit "write "
      ∷ text path
      ∷ lit ": "
      ∷ elim written [ failed _ ↦ error_text e | done _ ↦ lit "short write" ]
      ∷ lit "\n"
      ∷ [])
  do_call (Call.close_fd fd)
  exit exit_failure

-- `die(path)`.
unfoldable pub die_path : Text → Prog (Unit {0})
die_path path = do
  e ← errno
  fprintf (text path ∷ lit ": " ∷ error_text e ∷ lit "\n" ∷ [])
  exit exit_failure

-- All of the text was written.
abbrev pub is_whole : Text → Answer ℕ → Bool
is_whole t (failed e) = false
is_whole t (done n) = n == length t

-- What `write_text_file` and `deny_setgroups_if_available` do with the open file.
unfoldable pub write_open : Text → Text → ℕ → Prog (Unit {0})
write_open path value fd = do
  written ← sys (Call.write_fd fd value)
  if is_whole value written
      then (do
        closed ← sys (Call.close_fd fd)
        elim closed [ failed e ↦ die_path path | done n ↦ ret tt ])
      else write_failed path fd written

unfoldable pub cannot_open : Text → Prog (Unit {0})
cannot_open path = do
  e ← errno
  fprintf (lit "open " ∷ text path ∷ lit ": " ∷ error_text e ∷ lit "\n" ∷ [])
  exit exit_failure

unfoldable pub write_text_file : Text → Text → Prog (Unit {0})
write_text_file path value = do
  opened ← sys (Call.open_file path (Flag.o_wronly ∷ Flag.o_cloexec ∷ []))
  elim opened [ failed e ↦ cannot_open path | done fd ↦ write_open path value fd ]

abbrev pub proc_path : ℕ → String → Text
proc_path child file = (snprintf 128 (chars "/proc/" ++ (decimal child ++ chars file))).0

unfoldable pub deny_setgroups_if_available : ℕ → Prog (Unit {0})
deny_setgroups_if_available child = do
  let path = proc_path child "/setgroups"
  opened ← sys (Call.open_file path (Flag.o_wronly ∷ Flag.o_cloexec ∷ []))
  elim opened [
    | failed err ↦ do
      e ← errno
      if e == enoent
          then printf (lit "parent: " ∷ text path ∷ lit " is not available on this kernel\n" ∷ [])
          else cannot_open path
    | done fd ↦ do
      write_open path (chars "deny\n") fd
      printf (lit "parent: wrote deny to " ∷ text path ∷ lit "\n" ∷ [])
  ]

-- The line of a map: id 0 inside is this id outside.
abbrev pub map_line : ℕ → Text
map_line id = (snprintf 128 (chars "0 " ++ (decimal id ++ chars " 1\n"))).0

-- The end of `write_id_maps`.
unfoldable pub map_groups : (child host_gid : ℕ) → Prog (Unit {0})
map_groups child host_gid = do
  write_text_file (proc_path child "/gid_map") (map_line host_gid)
  printf (lit "parent: mapped namespace gid 0 to host gid " ∷ number host_gid ∷ lit "\n" ∷ [])

unfoldable pub write_id_maps : (child host_uid host_gid : ℕ) → Prog (Unit {0})
write_id_maps child host_uid host_gid = do
  write_text_file (proc_path child "/uid_map") (map_line host_uid)
  printf (lit "parent: mapped namespace uid 0 to host uid " ∷ number host_uid ∷ lit "\n" ∷ [])
  deny_setgroups_if_available child
  map_groups child host_gid

unfoldable pub print_map_file : String → Text → Prog (Unit {0})
print_map_file label path = do
  opened ← sys (Call.fopen path)
  elim opened [
    | failed err ↦ do
      e ← errno
      fprintf (
          lit label ∷ lit ": could not open " ∷ text path ∷ lit ": " ∷ error_text e ∷ lit "\n" ∷ [])
    | done file ↦ do
      got ← sys (Call.fgets 128 file)
      elim got [ done (some line) ↦ printf (lit label ∷ lit ": " ∷ text line ∷ []) | _ ↦ ret tt ]
      do_call (Call.fclose file)
  ]

-- `getuid`, `getgid`: calls without an error return.
abbrev pub ask_uid : Prog ℕ
ask_uid = do a ← sys Call.getuid; ret (int_value a)

abbrev pub ask_gid : Prog ℕ
ask_gid = do a ← sys Call.getgid; ret (int_value a)

-- `child_main` once the token is read.
unfoldable pub child_released : ℕ → Prog ℕ
child_released ready_fd = do
  do_call (Call.close_fd ready_fd)
  printf (lit "child: running in new user namespace\n" ∷ [])
  uid ← ask_uid
  gid ← ask_gid
  printf (lit "child: namespace uid=" ∷ number uid ∷ lit " gid=" ∷ number gid ∷ lit "\n" ∷ [])
  print_map_file "child: /proc/self/uid_map" (chars "/proc/self/uid_map")
  print_map_file "child: /proc/self/gid_map" (chars "/proc/self/gid_map")
  ret exit_success

-- The child; `ready_fd` is the field of its arguments.
unfoldable pub child_main : ℕ → Prog ℕ
child_main ready_fd = do
  got ← sys (Call.read_fd ready_fd 1)
  elim got [
    | failed e ↦ do perror "child read sync pipe"; exit_now exit_failure
    | done n ↦
        if n == 0
        then (do
          fprintf (lit "child: parent closed sync pipe before mapping ids\n" ∷ [])
          exit_now exit_failure)
        else child_released ready_fd
  ]

-- The end of `main`, with the status of the child.
unfoldable pub report : WaitStatus → Prog ℕ
report (exited code) = do
  printf (lit "parent: child exited with status " ∷ number code ∷ lit "\n" ∷ [])
  ret (if code == 0 then exit_success else exit_failure)
report (signaled sig) = do
  printf (lit "parent: child was terminated by signal " ∷ number sig ∷ lit "\n" ∷ [])
  ret exit_failure
report (WaitStatus.other_status s) = do
  fprintf (lit "parent: child ended in an unexpected wait state\n" ∷ [])
  ret exit_failure

-- `main` after the child is released.
unfoldable pub collect : (stack child : ℕ) → Prog ℕ
collect stack child = do
  waited ← sys (Call.waitpid child)
  elim waited [
    | failed e ↦ die "waitpid"
    | done (pid, status) ↦ do do_call (Call.free stack); report status
  ]

-- `main` in the parent, once it has the child.
unfoldable pub parent_run : (host_uid host_gid ready_fd token_fd stack child : ℕ) → Prog ℕ
parent_run host_uid host_gid ready_fd token_fd stack child = do
  do_call (Call.close_fd ready_fd)
  write_id_maps child host_uid host_gid
  sent ← sys (Call.write_fd token_fd (chars "x"))
  if is_whole (chars "x") sent
      then (do do_call (Call.close_fd token_fd); collect stack child)
      else die "write sync pipe"

-- `main` with the pipe.
unfoldable pub spawn : (host_uid host_gid ready_fd token_fd : ℕ) → Prog ℕ
spawn host_uid host_gid ready_fd token_fd = do
  got ← sys (Call.malloc stack_size)
  elim got [
    | failed e ↦ die "malloc child stack"
    | done stack ↦ do
      cloned ← sys (Call.clone (Flag.clone_newuser ∷ Flag.sigchld ∷ []))
      elim cloned [
        | failed e ↦ do
          err ← errno
          do_call (Call.close_fd ready_fd)
          do_call (Call.close_fd token_fd)
          do_call (Call.free stack)
          explain_clone_userns_error err
          ret exit_failure
        | done child ↦ parent_run host_uid host_gid ready_fd token_fd stack child
      ]
  ]

unfoldable pub main : Prog ℕ
main = do
  host_uid ← ask_uid
  host_gid ← ask_gid
  printf (lit "parent: host uid=" ∷ number host_uid ∷ lit " gid=" ∷ number host_gid ∷ lit "\n" ∷ [])
  fflush
  piped ← sys Call.pipe
  elim piped [
    | failed e ↦ die "pipe"
    | done (ready_fd, token_fd) ↦ spawn host_uid host_gid ready_fd token_fd
  ]
