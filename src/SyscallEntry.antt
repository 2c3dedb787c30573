-- ===== src/SyscallEntry.antt =====
-- mini-kernel/kernel/syscall_entry.c and mini-kernel/kernel/include/kernel/syscall_entry.h: from the
-- registers that a trap saves to the dispatcher and back.
pub mod Trap
use mini_isolation_lab.Base.{ℕ, Bool, Option, none, some, ◌≡◌, refl, arith}
use mini_isolation_lab.Machine.{World, ok, Cmd, pure, ◌>>=◌, and_then}
use mini_isolation_lab.Syscall.{
  Ktask, KsyscallRegs, KsyscallError, KsyscallResult, ksyscall_dispatch,
}

-- `struct ksyscall_trap_frame`; `result` is the bit pattern of an `intptr_t`.
pub record KsyscallTrapFrame : Type 0 where
  pub rax : ℕ
  pub rdi : ℕ
  pub rsi : ℕ
  pub rdx : ℕ
  pub r10 : ℕ
  pub r8 : ℕ
  pub r9 : ℕ
  pub rcx : ℕ
  pub r11 : ℕ
  pub user_rsp : ℕ
  pub result : ℕ
  pub error : KsyscallError
  pub should_exit : Bool
  pub exit_status : ℕ

-- The registers that the dispatcher sees.
abbrev pub regs_of : KsyscallTrapFrame → KsyscallRegs
regs_of frame = record {
  nr = frame.rax;
  arg0 = frame.rdi;
  arg1 = frame.rsi;
  arg2 = frame.rdx;
  arg3 = frame.r10;
  arg4 = frame.r8;
  arg5 = frame.r9;
}

-- The frame with a result stored in it.
abbrev pub with_result : KsyscallTrapFrame → KsyscallResult → KsyscallTrapFrame
with_result frame r = record frame {
  rax = r.value;
  result = r.value;
  error = r.error;
  should_exit = r.should_exit;
  exit_status = r.exit_status;
}

unfoldable pub ksyscall_entry :
    Option Ktask → Option KsyscallTrapFrame → Cmd (Option Ktask × Option KsyscallTrapFrame)
ksyscall_entry task none = pure (task, none)
ksyscall_entry task (some frame) = do
  (r, task') ← ksyscall_dispatch task (some (regs_of frame))
  pure (task', some (with_result frame r))
