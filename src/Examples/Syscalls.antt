-- ===== src/Examples/Syscalls.antt =====
-- System calls of the small machine's task.
use mini_isolation_lab.Base.{
  ℕ, ◌-◌, ◌^◌, ◌≡◌, ◌↔◌, ◌⊎◌, refl, true, false, arith, Option, some, set,
}
use mini_isolation_lab.Machine.{World, ok}
use mini_isolation_lab.Machine.Memory.{peek}
use mini_isolation_lab.Fs.{node_is_valid}
use mini_isolation_lab.Fs.Catalog.{find}
use mini_isolation_lab.Syscall.{
  Ktask, KsyscallRegs, KsyscallError, KsyscallResult, ksyscall_result, nr_read,
  task_contains_user_range, sys_write, sys_open, sys_close, sys_read, sys_stat, ksyscall_dispatch,
  no_file,
}
use mini_isolation_lab.Syscall.Range.{InUser, contains_iff}
use mini_isolation_lab.Syscall.Write.{write_outcome, sys_write_outcome}
use mini_isolation_lab.Syscall.Files.{OpenOutcome, opened_file, sys_open_outcome, sys_close-closed}
use mini_isolation_lab.Syscall.Read.{read_outcome, sys_read_outcome}
use mini_isolation_lab.Syscall.Stat.{stat_outcome, both_inside, sys_stat_outcome}
use mini_isolation_lab.Syscall.Keeps.{Answers, Keeps}
use mini_isolation_lab.Syscall.Calls.{Kind, Called}
use mini_isolation_lab.Syscall.Dispatch.{ksyscall_dispatch-Answers}
use mini_isolation_lab.Syscall.Numbers.{dispatch-u32}
use mini_isolation_lab.Syscall.Session.{Serves, open-read-close}
use mini_isolation_lab.SyscallEntry.{KsyscallTrapFrame, ksyscall_entry}
use mini_isolation_lab.SyscallEntry.Trap.{ksyscall_entry-Keeps}
use mini_isolation_lab.User.{zero_frame}
use mini_isolation_lab.Examples.World.{
  motd, catalog, machine, files, task, task-IsSound, bytes-Room,
}

abbrev wanted : ℕ
wanted = 502

contains_iff_example :
    (task_contains_user_range (some task) 1010 wanted ≡ true)
    ↔ ((wanted ≡ 0) ⊎ InUser task 1010 wanted)
contains_iff_example = contains_iff task 1010 wanted

-- `task_contains_user_range` on both sides of the end of the user memory.
contains_edges :
    (task_contains_user_range (some task) 1010 502 ≡ true)
    × (task_contains_user_range (some task) 1010 503 ≡ false)
    × (task_contains_user_range (some task) (2 ^ 64 - 1) 2 ≡ false)
unfolding task_contains_user_range
contains_edges = (refl, refl, refl)

sys_write_outcome_example :
    (n : ℕ) × (sys_write (some task) 1 1000 1 machine
      ≡ write_outcome true (task_contains_user_range (some task) 1000 1) task 1000 1 machine n)
sys_write_outcome_example =
    sys_write_outcome task 1 1000 1 machine (bytes-Room 1000 512 (omega arith))
      (λ e. absurd (omega (arith, e)))

sys_open_outcome_example :
    (out : KsyscallResult × Option Ktask) × (sys_open (some task) 1000 1 machine ≡ ok out machine)
    × OpenOutcome (task_contains_user_range (some task) 1000 1) (some motd) task out
unfolding peek find node_is_valid
sys_open_outcome_example = sys_open_outcome catalog task 1000 1 machine task-IsSound

sys_close-closed_example :
    sys_close (some task) 3 machine
    ≡ ok
        (
          ksyscall_result 0 KsyscallError.success,
          some (record task { files = set files 3 no_file }),
        )
        machine
sys_close-closed_example = sys_close-closed task 3 machine refl

sys_read_outcome_example :
    sys_read (some task) 3 1100 9 machine
    ≡ read_outcome task 3 1100 9 machine
        (some (record (opened_file motd) { offset = 1 }))
        (task_contains_user_range (some task) 1100 9)
sys_read_outcome_example = sys_read_outcome catalog task 3 1100 9 machine task-IsSound

sys_stat_outcome_example :
    sys_stat (some task) 1000 1 1100 machine
    ≡ stat_outcome (both_inside task 1000 1 1100) (some motd) 1100 machine
unfolding peek find node_is_valid
sys_stat_outcome_example = sys_stat_outcome catalog task 1000 1 1100 machine task-IsSound

abbrev regs : KsyscallRegs
regs = record { nr = nr_read; arg0 = 3; arg1 = 1100; arg2 = 9; arg3 = 0; arg4 = 0; arg5 = 0 }

ksyscall_dispatch-Answers_example :
    Answers catalog task machine (ksyscall_dispatch (some task) (some regs) machine)
ksyscall_dispatch-Answers_example = ksyscall_dispatch-Answers catalog task machine regs task-IsSound

dispatch-u32_example :
    ksyscall_dispatch (some task) (some (record regs { nr = 2 ^ 32 })) machine
    ≡ ksyscall_dispatch (some task) (some regs) machine
dispatch-u32_example = dispatch-u32 (some task) regs 1 machine

open-read-close_example :
    (fd : ℕ) × (t' : Ktask) × (sys_open (some task) 1000 1 machine
      ≡ ok (ksyscall_result fd KsyscallError.success, some t') machine)
    × Serves catalog task machine motd fd t'
unfolding task_contains_user_range peek find node_is_valid
open-read-close_example =
    open-read-close catalog task 1000 1 4 motd machine task-IsSound refl refl (omega arith)
      (omega arith) refl

abbrev frame : KsyscallTrapFrame
frame = record zero_frame { rax = nr_read; rdi = 3; rsi = 1100; rdx = 9; rcx = 77 }

ksyscall_entry-Keeps_example :
    (r : KsyscallResult) × (t' : Ktask) × (w' : World) × (ksyscall_entry
        (some task)
        (some frame)
        machine
      ≡ ok
          (
            some t',
            some (record frame {
              rax = r.value;
              result = r.value;
              error = r.error;
              should_exit = r.should_exit;
              exit_status = r.exit_status;
            }),
          )
          w')
    × Called (some Kind.read_call) catalog task 3 1100 9 machine (r, some t') w'
    × (ksyscall_dispatch
          (some task)
          (some (record {
            nr = nr_read;
            arg0 = 3;
            arg1 = 1100;
            arg2 = 9;
            arg3 = 0;
            arg4 = 0;
            arg5 = 0;
          }))
          machine
        ≡ ok (r, some t') w')
    × Keeps catalog task t' machine w'
ksyscall_entry-Keeps_example = ksyscall_entry-Keeps catalog task frame machine task-IsSound
