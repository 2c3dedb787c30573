-- ===== src/Syscall/Numbers.antt =====
-- Which call a number selects.
use mini_isolation_lab.Base.{ℕ, ◌+◌, ◌*◌, ◌^◌, ◌≡◌, true, arith, Option, some}
use mini_isolation_lab.Base.Words.{u32}
use mini_isolation_lab.Machine.{World, ok}
use mini_isolation_lab.Syscall.{
  Ktask, KsyscallRegs, KsyscallError, nr_read, nr_open, nr_write, nr_exit, beside, sys_open,
  sys_read, sys_write, sys_exit, dispatch_number, ksyscall_dispatch,
}

-- Only the low 32 bits of `nr` select the call: every number that differs by a multiple of 2 ^ 32
-- from one of a call is taken for it.
pub dispatch-u32 :
    (task : Option Ktask) (regs : KsyscallRegs) (k : ℕ) (w : World)
    → ksyscall_dispatch task (some (record regs { nr = regs.nr + 2 ^ 32 * k })) w
      ≡ ksyscall_dispatch task (some regs) w
unfolding ksyscall_dispatch
dispatch-u32 task regs k w = rw (wraps regs.nr k)
  where
    wraps : (x k : ℕ) → u32 (x + 2 ^ 32 * k) ≡ u32 x
    wraps x k = omega arith

pub dispatch-write :
    (task : Option Ktask) (regs : KsyscallRegs) (w : World)
    → regs.nr ≡ nr_write
    → ksyscall_dispatch task (some regs) w
      ≡ beside task (sys_write task regs.arg0 regs.arg1 regs.arg2) w
unfolding ksyscall_dispatch dispatch_number
dispatch-write task regs w e = ground arith

pub dispatch-exit :
    (task : Option Ktask) (regs : KsyscallRegs) (w : World)
    → regs.nr ≡ nr_exit
    → ksyscall_dispatch task (some regs) w
      ≡ ok
          (
            record {
              value = 0;
              error = KsyscallError.success;
              should_exit = true;
              exit_status = u32 regs.arg0;
            },
            task,
          )
          w
unfolding ksyscall_dispatch dispatch_number sys_exit
dispatch-exit task regs w e = ground arith

pub dispatch-open :
    (task : Option Ktask) (regs : KsyscallRegs) (w : World)
    → regs.nr ≡ nr_open
    → ksyscall_dispatch task (some regs) w ≡ sys_open task regs.arg0 regs.arg1 w
unfolding ksyscall_dispatch dispatch_number
dispatch-open task regs w e = ground arith

pub dispatch-read :
    (task : Option Ktask) (regs : KsyscallRegs) (w : World)
    → regs.nr ≡ nr_read
    → ksyscall_dispatch task (some regs) w ≡ sys_read task regs.arg0 regs.arg1 regs.arg2 w
unfolding ksyscall_dispatch dispatch_number
dispatch-read task regs w e = ground arith
