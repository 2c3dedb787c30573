-- ===== src/Syscall.antt =====
-- mini-kernel/kernel/syscall.c and mini-kernel/kernel/include/kernel/syscall.h: the system calls of a
-- task and their dispatcher. The kernel's structs are values, and user pointers are addresses of the
-- memory. A function that changes `*task` returns it beside its result.
pub mod Calls
pub mod Dispatch
pub mod Files
pub mod Keeps
pub mod Numbers
pub mod Range
pub mod Read
pub mod Session
pub mod Stat
pub mod State
pub mod Write
use mini_isolation_lab.Base.{
  ℕ, zero, suc, ◌+◌, ◌-◌, Bool, true, false, not, ◌&&◌, ◌||◌, Option, none, some, List, ◌==◌, ◌!=◌,
  ltb, leb, if◌then◌else◌, get_elem?, set,
}
use mini_isolation_lab.Base.Words.{u32, u64, add_overflow, minus_one64}
use mini_isolation_lab.Machine.{
  Addr, null, KfsNode, Event, World, Cmd, pure, ◌>>=◌, ◌>>◌, must, load, emit,
}
use mini_isolation_lab.Console.{klog_putc}
pub use mini_isolation_lab.Task.{
  nr_read, nr_write, nr_open, nr_close, nr_stat, nr_getpid, nr_exit, KsyscallError, fd_stdout,
  fd_stderr, fd_first_file, max_files, KsyscallRegs, KsyscallResult, KtaskFile, Ktask, no_file,
  ksyscall_result, failure,
}
use mini_isolation_lab.Fs.{KfsError, kfs_lookup, kfs_stat_node, kfs_read_node, sizeof_stat}

-- The build that runs as a kernel: the byte goes to the log.
default_write_byte : (ctx ch : ℕ) → Cmd (Unit {0})
default_write_byte ctx ch = klog_putc ch

unfoldable pub task_contains_user_range : Option Ktask → Addr → ℕ → Bool
task_contains_user_range none ptr len = false
task_contains_user_range (some task) ptr len =
    if len == 0 then true else elim (add_overflow ptr len) [
      | none ↦ false
      | some ptr_end ↦ elim (add_overflow task.user_base task.user_len) [
        | none ↦ false
        | some user_end ↦ leb task.user_base ptr && leb ptr_end user_end
      ]
    ]

-- The call of the task's `write_byte`, or of the default.
put_byte : Ktask → ℕ → Cmd (Unit {0})
unfolding default_write_byte
put_byte task ch =
    if task.write_byte != null
    then emit (Event.call task.write_byte task.write_ctx ch)
    else default_write_byte task.write_ctx ch

-- The loop of `sys_write`, from index `i` with this many rounds left.
write_loop : ℕ → Ktask → Addr → ℕ → Cmd (Unit {0})
write_loop zero task bytes i = pure tt
write_loop (suc n) task bytes i = do
  ch ← load (bytes + i)
  put_byte task ch
  write_loop n task bytes (i + 1)

pub sys_write : Option Ktask → ℕ → Addr → ℕ → Cmd KsyscallResult
unfolding write_loop put_byte
sys_write task fd ptr len =
    if (fd != fd_stdout) && (fd != fd_stderr)
    then pure (failure KsyscallError.ebadf)
    else if not (task_contains_user_range task ptr len)
    then pure (failure KsyscallError.efault)
    else do t ← must task; write_loop len t ptr 0; pure (ksyscall_result len KsyscallError.success)

-- The loop of `sys_open` over the descriptors from `fd` on, with this many left.
open_loop : ℕ → Ktask → KfsNode → ℕ → Cmd (KsyscallResult × Option Ktask)
open_loop zero task node fd = pure (failure KsyscallError.emfile, some task)
open_loop (suc n) task node fd = do
  file ← must (get_elem? task.files fd)
  if not file.used
      then pure (
        ksyscall_result fd KsyscallError.success,
        some (record task {
          files = set task.files fd (record { node = some node; offset = 0; used = true });
        }),
      )
      else open_loop n task node (fd + 1)

pub sys_open : Option Ktask → Addr → ℕ → Cmd (KsyscallResult × Option Ktask)
unfolding open_loop
sys_open task path_ptr path_len =
    if not (task_contains_user_range task path_ptr path_len)
    then pure (failure KsyscallError.efault, task)
    else do
      t ← must task
      found ← kfs_lookup path_ptr path_len
      elim found [
        | none ↦ pure (failure KsyscallError.enoent, task)
        | some node ↦ open_loop (max_files - fd_first_file) t node fd_first_file
      ]

-- The test that `sys_close` and `sys_read` begin with, part by part: the task and its file, or
-- nothing where the descriptor is bad.
pub file_of : Option Ktask → ℕ → Cmd (Option (Ktask × KtaskFile))
file_of none fd = pure none
file_of (some task) fd = if ltb fd fd_first_file || leb max_files fd then pure none else do
  file ← must (get_elem? task.files fd)
  pure (if not file.used then none else some (task, file))

pub sys_close : Option Ktask → ℕ → Cmd (KsyscallResult × Option Ktask)
unfolding file_of
sys_close task fd = do
  found ← file_of task fd
  elim found [
    | none ↦ pure (failure KsyscallError.ebadf, task)
    | some (t, file) ↦ pure (
      ksyscall_result 0 KsyscallError.success,
      some (record t { files = set t.files fd no_file }),
    )
  ]

pub sys_read : Option Ktask → ℕ → Addr → ℕ → Cmd (KsyscallResult × Option Ktask)
unfolding file_of
sys_read task fd dst len = do
  found ← file_of task fd
  elim found [
    | none ↦ pure (failure KsyscallError.ebadf, task)
    | some (t, file) ↦
        if not (task_contains_user_range task dst len)
        then pure (failure KsyscallError.efault, task)
        else do
          bytes_read ← kfs_read_node file.node file.offset dst len
          pure (
            ksyscall_result bytes_read KsyscallError.success,
            some (record t {
              files = set t.files fd (record file { offset = u64 (file.offset + bytes_read) });
            }),
          )
  ]

pub sys_stat : Option Ktask → Addr → ℕ → Addr → Cmd KsyscallResult
sys_stat task path_ptr path_len stat_ptr =
    if not (task_contains_user_range task path_ptr path_len)
      || not (task_contains_user_range task stat_ptr sizeof_stat)
    then pure (failure KsyscallError.efault)
    else do
      node ← kfs_lookup path_ptr path_len
      elim node [
        | none ↦ pure (failure KsyscallError.enoent)
        | some n ↦ do
          status ← kfs_stat_node (some n) stat_ptr
          elim status [
            | KfsError.success ↦ pure (ksyscall_result 0 KsyscallError.success)
            | _ ↦ pure (failure KsyscallError.einval)
          ]
      ]

pub sys_getpid : Option Ktask → Cmd KsyscallResult
sys_getpid none = pure (failure KsyscallError.einval)
sys_getpid (some task) =
    if task.pid == 0
    then pure (failure KsyscallError.einval)
    else pure (ksyscall_result task.pid KsyscallError.success)

pub sys_exit : ℕ → Cmd KsyscallResult
sys_exit status =
    pure (record {
      value = 0;
      error = KsyscallError.success;
      should_exit = true;
      exit_status = status;
    })

-- A call that leaves the task as it was.
abbrev pub beside : Option Ktask → Cmd KsyscallResult → Cmd (KsyscallResult × Option Ktask)
beside task m = do r ← m; pure (r, task)

-- The `switch` of `ksyscall_dispatch`: an `enum` without negative values is an `unsigned int`, so
-- the conversion of the 64-bit `nr` keeps its low 32 bits.
dispatch_number : ℕ → Option Ktask → KsyscallRegs → Cmd (KsyscallResult × Option Ktask)
dispatch_number nr task regs =
    if nr == nr_read
    then sys_read task regs.arg0 regs.arg1 regs.arg2
    else if nr == nr_write
    then beside task (sys_write task regs.arg0 regs.arg1 regs.arg2)
    else if nr == nr_open
    then sys_open task regs.arg0 regs.arg1
    else if nr == nr_close
    then sys_close task regs.arg0
    else if nr == nr_stat
    then beside task (sys_stat task regs.arg0 regs.arg1 regs.arg2)
    else if nr == nr_getpid
    then beside task (sys_getpid task)
    else if nr == nr_exit
    then beside task (sys_exit (u32 regs.arg0))
    else pure (failure KsyscallError.enosys, task)

pub ksyscall_dispatch : Option Ktask → Option KsyscallRegs → Cmd (KsyscallResult × Option Ktask)
unfolding dispatch_number
ksyscall_dispatch task none = pure (failure KsyscallError.einval, task)
ksyscall_dispatch task (some regs) = dispatch_number (u32 regs.nr) task regs
