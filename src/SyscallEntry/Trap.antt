-- ===== src/SyscallEntry/Trap.antt =====
-- What a trap does to the task, the memory and the saved registers.
use mini_isolation_lab.Base.{◌≡◌, some, List}
use mini_isolation_lab.Base.Words.{u32}
use mini_isolation_lab.Machine.{World, ok}
use mini_isolation_lab.Fs.Catalog.{Entry}
use mini_isolation_lab.Syscall.{Ktask, KsyscallResult, ksyscall_dispatch}
use mini_isolation_lab.Syscall.State.{IsSound}
use mini_isolation_lab.Syscall.Keeps.{Keeps}
use mini_isolation_lab.Syscall.Calls.{kind_of, Called, ksyscall_dispatch-Called}
use mini_isolation_lab.Syscall.Dispatch.{ksyscall_dispatch-Answers}
use mini_isolation_lab.SyscallEntry.{KsyscallTrapFrame, ksyscall_entry, regs_of}

-- On a state in order a trap with any registers returns. The low 32 bits of rax select the call,
-- read, write, open, close, stat, getpid and exit from 0 to 6 and a refusal of all other numbers;
-- the call ends as its outcome says for the arguments in rdi, rsi and rdx, and it is the
-- dispatcher's for rax and the arguments in rdi, rsi, rdx, r10, r8 and r9. The frame then has the
-- value in rax and result, the error and the exit beside it, and every other register as it was;
-- the state stays in order, memory outside the user memory is as it was, and of the task only its
-- table of files differs.
pub ksyscall_entry-Keeps :
    (es : List Entry) (t : Ktask) (frame : KsyscallTrapFrame) (w : World)
    → IsSound es t w
    → (r : KsyscallResult) × (t' : Ktask) × (w' : World) × (ksyscall_entry (some t) (some frame) w
        ≡ ok
            (
              some t',
              some (record {
                rax = r.value;
                rdi = frame.rdi;
                rsi = frame.rsi;
                rdx = frame.rdx;
                r10 = frame.r10;
                r8 = frame.r8;
                r9 = frame.r9;
                rcx = frame.rcx;
                r11 = frame.r11;
                user_rsp = frame.user_rsp;
                result = r.value;
                error = r.error;
                should_exit = r.should_exit;
                exit_status = r.exit_status;
              }),
            )
            w')
      × Called (kind_of (u32 frame.rax)) es t frame.rdi frame.rsi frame.rdx w (r, some t') w'
      × (ksyscall_dispatch
            (some t)
            (some (record {
              nr = frame.rax;
              arg0 = frame.rdi;
              arg1 = frame.rsi;
              arg2 = frame.rdx;
              arg3 = frame.r10;
              arg4 = frame.r8;
              arg5 = frame.r9;
            }))
            w
          ≡ ok (r, some t') w')
      × Keeps es t t' w w'
unfolding ksyscall_entry
ksyscall_entry-Keeps es t frame w s =
    let (r, t', w', run, keeps) = ksyscall_dispatch-Answers es t w (regs_of frame) s in
    let called = ksyscall_dispatch-Called es t w s (regs_of frame) (r, some t') w' run in
    (r, t', w', simp run, called, run, keeps)
