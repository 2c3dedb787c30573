-- ===== src/Task.antt =====
-- mini-kernel/kernel/include/kernel/syscall.h: tasks, their open files, and the registers and results
-- of a system call. The structs of the kernel are values.
use mini_isolation_lab.Base.{ℕ, Bool, false, Option, none, List}
use mini_isolation_lab.Base.Words.{minus_one64}
use mini_isolation_lab.Machine.{Addr, KfsNode}

-- `enum ksyscall_number`.
abbrev pub nr_read : ℕ
nr_read = 0

abbrev pub nr_write : ℕ
nr_write = 1

abbrev pub nr_open : ℕ
nr_open = 2

abbrev pub nr_close : ℕ
nr_close = 3

abbrev pub nr_stat : ℕ
nr_stat = 4

abbrev pub nr_getpid : ℕ
nr_getpid = 5

abbrev pub nr_exit : ℕ
nr_exit = 6

-- `enum ksyscall_error`.
pub data KsyscallError : Type 0 where
  success : KsyscallError
  enoent : KsyscallError
  ebadf : KsyscallError
  efault : KsyscallError
  einval : KsyscallError
  emfile : KsyscallError
  enosys : KsyscallError

-- `enum ksyscall_fd` and `KTASK_MAX_FILES`.
abbrev pub fd_stdout : ℕ
fd_stdout = 1

abbrev pub fd_stderr : ℕ
fd_stderr = 2

abbrev pub fd_first_file : ℕ
fd_first_file = 3

abbrev pub max_files : ℕ
max_files = 8

-- `struct ksyscall_regs`.
pub record KsyscallRegs : Type 0 where
  pub nr : ℕ
  pub arg0 : ℕ
  pub arg1 : ℕ
  pub arg2 : ℕ
  pub arg3 : ℕ
  pub arg4 : ℕ
  pub arg5 : ℕ

-- `struct ksyscall_result`; `value` is the bit pattern of an `intptr_t`, `exit_status` of an `int`.
pub record KsyscallResult : Type 0 where
  pub value : ℕ
  pub error : KsyscallError
  pub should_exit : Bool
  pub exit_status : ℕ

-- `struct ktask_file`.
pub record KtaskFile : Type 0 where
  pub node : Option KfsNode
  pub offset : ℕ
  pub used : Bool

-- `struct ktask`; `write_byte` is a pointer to a function, `null` for none.
pub record Ktask : Type 0 where
  pub pid : ℕ
  pub user_base : Addr
  pub user_len : ℕ
  pub write_byte : Addr
  pub write_ctx : ℕ
  pub files : List KtaskFile

-- `(struct ktask_file){0}`.
abbrev pub no_file : KtaskFile
no_file = record { node = none; offset = 0; used = false }

abbrev pub ksyscall_result : ℕ → KsyscallError → KsyscallResult
ksyscall_result value error = record {
  value = value;
  error = error;
  should_exit = false;
  exit_status = 0;
}

-- The result of every failing call.
abbrev pub failure : KsyscallError → KsyscallResult
failure error = ksyscall_result minus_one64 error
