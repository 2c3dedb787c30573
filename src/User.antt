-- ===== src/User.antt =====
-- mini-kernel/kernel/include/kernel/user.h and the first half of mini-kernel/kernel/user.c: processes,
-- their operations, and the system call that each of these asks for. A process' `memory` is the
-- address of its array of bytes; its other fields are values.
pub mod Init
pub mod InitProgram
pub mod Ranges
pub mod Run
use mini_isolation_lab.Base.{
  ℕ, zero, suc, ◌+◌, ◌-◌, Bool, true, false, not, ◌&&◌, ◌||◌, Option, none, some, List, ◌==◌, ltb,
  leb, if◌then◌else◌, get_elem?, set, replicate,
}
use mini_isolation_lab.Base.Words.{u32, sign_extend, is_negative32, minus_one32}
use mini_isolation_lab.Machine.{Addr, KfsNode, Cmd, pure, ◌>>=◌, ◌>>◌, must}
use mini_isolation_lab.KernelLib.{kmemset, kmemcpy_checked}
use mini_isolation_lab.Fs.{kfs_mount, sizeof_stat}
use mini_isolation_lab.Syscall.{
  Ktask, KsyscallError, no_file, max_files, nr_read, nr_write, nr_open, nr_close, nr_stat, nr_exit,
  fd_stdout,
}
use mini_isolation_lab.SyscallEntry.{KsyscallTrapFrame, ksyscall_entry}

-- `KUSER_MEMORY_SIZE` and `KUSER_MAX_FD_SLOTS`.
abbrev pub memory_size : ℕ
memory_size = 512

abbrev pub max_fd_slots : ℕ
max_fd_slots = 4

-- `enum kuser_error`.
pub data KuserError : Type 0 where
  success : KuserError
  efault : KuserError
  esyscall : KuserError
  ebadfd : KuserError
  einval : KuserError

-- `enum kuser_opcode`; any other number can stand in an operation.
abbrev pub op_write : ℕ
op_write = 1

abbrev pub op_open : ℕ
op_open = 2

abbrev pub op_read : ℕ
op_read = 3

abbrev pub op_close : ℕ
op_close = 4

abbrev pub op_stat : ℕ
op_stat = 5

abbrev pub op_exit : ℕ
op_exit = 6

-- `struct kuser_op`; `exit_status` is the bit pattern of an `int`.
pub record KuserOp : Type 0 where
  pub opcode : ℕ
  pub fd_slot : ℕ
  pub offset : ℕ
  pub len : ℕ
  pub aux_offset : ℕ
  pub aux_len : ℕ
  pub exit_status : ℕ

-- `struct kuser_program`.
pub record KuserProgram : Type 0 where
  pub initial_memory : Addr
  pub initial_memory_len : ℕ
  pub ops : Option (List KuserOp)
  pub op_count : ℕ
  pub fs_nodes : Option (List KfsNode)
  pub fs_node_count : ℕ

-- `struct kuser_process`; the slots and the exit status are bit patterns of an `int`.
pub record KuserProcess : Type 0 where
  pub task : Ktask
  pub memory : Addr
  pub fd_slots : List ℕ
  pub exited : Bool
  pub exit_status : ℕ
  pub last_error : KuserError
  pub last_syscall_error : KsyscallError

unfoldable pub user_range_ok : (offset len : ℕ) → Bool
user_range_ok offset len = leb offset memory_size && leb len (memory_size - offset)

abbrev pub user_ptr : KuserProcess → ℕ → Addr
user_ptr process offset = process.memory + offset

-- `process->fd_slots[i] = -1` from index `i`, with this many rounds left.
slots_loop : ℕ → List ℕ → ℕ → List ℕ
slots_loop zero slots i = slots
slots_loop (suc n) slots i = slots_loop n (set slots i minus_one32) (i + 1)

-- A process all of whose bytes are 0.
abbrev zero_process : Addr → KuserProcess
zero_process memory = record {
  task = record {
    pid = 0;
    user_base = 0;
    user_len = 0;
    write_byte = 0;
    write_ctx = 0;
    files = replicate max_files no_file;
  };
  memory = memory;
  fd_slots = replicate max_fd_slots 0;
  exited = false;
  exit_status = 0;
  last_error = KuserError.success;
  last_syscall_error = KsyscallError.success;
}

-- The process is an array at `memory` with fields whose old values do not matter; `kmemset` clears
-- both.
pub kuser_init_process : Option Addr → (pid write_byte write_ctx : ℕ) → Cmd (Option KuserProcess)
unfolding slots_loop
kuser_init_process none pid write_byte write_ctx = pure none
kuser_init_process (some memory) pid write_byte write_ctx = do
  kmemset memory 0 memory_size
  let p = zero_process memory
  pure (
      some (record p {
        task = record (p.task) {
          pid = pid;
          user_base = memory;
          user_len = memory_size;
          write_byte = write_byte;
          write_ctx = write_ctx;
        };
        fd_slots = slots_loop max_fd_slots p.fd_slots 0;
      }))

-- `struct ksyscall_trap_frame frame = {0}`.
abbrev pub zero_frame : KsyscallTrapFrame
zero_frame = record {
  rax = 0;
  rdi = 0;
  rsi = 0;
  rdx = 0;
  r10 = 0;
  r8 = 0;
  r9 = 0;
  rcx = 0;
  r11 = 0;
  user_rsp = 0;
  result = 0;
  error = KsyscallError.success;
  should_exit = false;
  exit_status = 0;
}

-- What the `switch` of `kuser_run` makes of an operation.
pub data Prepared : Type 0 where
  refused : KuserError → Prepared
  ready : KsyscallTrapFrame → Prepared

-- The slot of an operation, if there is one and it is not negative.
pub open_slot : KuserProcess → ℕ → Cmd (Option ℕ)
open_slot process i = if leb max_fd_slots i then pure none else do
  fd ← must (get_elem? process.fd_slots i)
  pure (if is_negative32 fd then none else some fd)

-- The cases of the `switch` that look at the operation's slot begin with that; `slot` is what they
-- find.
pub prepared : KuserProcess → KuserOp → Option ℕ → Prepared
prepared process op slot =
    if op.opcode == op_write
    then if not (user_range_ok op.offset op.len)
      then refused KuserError.efault
      else ready (record zero_frame {
        rax = nr_write;
        rdi = fd_stdout;
        rsi = user_ptr process op.offset;
        rdx = op.len;
      })
    else if op.opcode == op_open
    then if leb max_fd_slots op.fd_slot || not (user_range_ok op.offset op.len)
      then refused KuserError.efault
      else ready
          (record zero_frame { rax = nr_open; rdi = user_ptr process op.offset; rsi = op.len })
    else if op.opcode == op_read
    then elim slot [
      | none ↦ refused KuserError.ebadfd
      | some fd ↦
          if not (user_range_ok op.offset op.len)
          then refused KuserError.ebadfd
          else ready (record zero_frame {
            rax = nr_read;
            rdi = sign_extend fd;
            rsi = user_ptr process op.offset;
            rdx = op.len;
          })
    ]
    else if op.opcode == op_close
    then elim slot [
      | none ↦ refused KuserError.ebadfd
      | some fd ↦ ready (record zero_frame { rax = nr_close; rdi = sign_extend fd })
    ]
    else if op.opcode == op_stat
    then if not (user_range_ok op.offset op.len) || not (user_range_ok op.aux_offset sizeof_stat)
      then refused KuserError.efault
      else ready (record zero_frame {
        rax = nr_stat;
        rdi = user_ptr process op.offset;
        rsi = op.len;
        rdx = user_ptr process op.aux_offset;
      })
    else if op.opcode == op_exit
    then ready (record zero_frame { rax = nr_exit; rdi = sign_extend op.exit_status })
    else refused KuserError.einval

pub prepare : KuserProcess → KuserOp → Cmd Prepared
unfolding prepared open_slot
prepare process op = do
  slot ←
      if (op.opcode == op_read) || (op.opcode == op_close)
      then open_slot process op.fd_slot
      else pure none
  pure (prepared process op slot)
