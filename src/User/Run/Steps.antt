-- ===== src/User/Run/Steps.antt =====
-- What single operations do: the output of a write, and the end of a run.
use mini_isolation_lab.Base.{
  ℕ, suc, ◌+◌, ◌^◌, ◌<◌, ◌≡◌, refl, ◌∙◌, true, false, some, List, get_elem?,
}
use mini_isolation_lab.Base.Words.{sign_extend, u32-sign_extend}
use mini_isolation_lab.Machine.{World, ok}
use mini_isolation_lab.Machine.Memory.{peek}
use mini_isolation_lab.Fs.Catalog.{Entry}
use mini_isolation_lab.Console.Output.{sent}
use mini_isolation_lab.Syscall.{KsyscallError, nr_write, nr_exit, fd_stdout}
use mini_isolation_lab.Syscall.Write.{written, sys_write_outcome}
use mini_isolation_lab.Syscall.Numbers.{dispatch-write, dispatch-exit}
use mini_isolation_lab.SyscallEntry.{KsyscallTrapFrame, ksyscall_entry, regs_of}
use mini_isolation_lab.User.{
  KuserError, KuserOp, KuserProcess, ready, prepare, user_range_ok, user_ptr, op_write, op_exit,
  zero_frame,
}
use mini_isolation_lab.User.Ranges.{user_range_ok-contains}
use mini_isolation_lab.User.Run.{run_frame, run_op, run_loop}
use mini_isolation_lab.User.Run.Keeps.{IsRunnable}
use mini_isolation_lab.User.Run.Program.{run_loop_step, run_loop_exited}

prepare-write :
    (p : KuserProcess) (op : KuserOp) (w : World)
    → op.opcode ≡ op_write
    → user_range_ok op.offset op.len ≡ true
    → prepare p op w
      ≡ ok
          (ready (record zero_frame {
            rax = nr_write;
            rdi = fd_stdout;
            rsi = user_ptr p op.offset;
            rdx = op.len;
          }))
          w
unfolding prepare
prepare-write p op w e good = simp (e, good)

prepare-exit :
    (p : KuserProcess) (op : KuserOp) (w : World)
    → op.opcode ≡ op_exit
    → prepare p op w
      ≡ ok (ready (record zero_frame { rax = nr_exit; rdi = sign_extend op.exit_status })) w
unfolding prepare
prepare-exit p op w e = simp e

-- A write operation on a range of the process' array succeeds on a process in order: exactly the
-- bytes of the range go out, in order, and of the process only the last error of a system call is
-- set, to none.
pub run_op-written :
    (es : List Entry) (p : KuserProcess) (op : KuserOp) (w : World)
    → IsRunnable es p w
    → op.opcode ≡ op_write
    → user_range_ok op.offset op.len ≡ true
    → (n : ℕ) × (run_op p op w
        ≡ ok
            (KuserError.success, record p { last_syscall_error = KsyscallError.success })
            (sent w (written p.task (peek w.mem (user_ptr p op.offset) op.len)) n))
unfolding run_op run_frame ksyscall_entry
run_op-written es p op w r e good =
    let (n, run) =
      sys_write_outcome p.task fd_stdout (user_ptr p op.offset) op.len w r.sound.room
        r.sound.can_write in
    let inside = user_range_ok-contains p op.offset op.len r.home good in
    let asked : KsyscallTrapFrame = record zero_frame {
      rax = nr_write;
      rdi = fd_stdout;
      rsi = user_ptr p op.offset;
      rdx = op.len;
    } in
    (
      n,
      simp (
        prepare-write p op w e good,
        dispatch-write (some p.task) (regs_of asked) w refl,
        run,
        inside,
        e,
      ),
    )

run_op-exit :
    (p : KuserProcess) (op : KuserOp) (w : World)
    → op.opcode ≡ op_exit
    → op.exit_status < 2 ^ 32
    → run_op p op w
      ≡ ok
          (
            KuserError.success,
            record p {
              exited = true;
              exit_status = op.exit_status;
              last_syscall_error = KsyscallError.success;
            },
          )
          w
unfolding run_op run_frame ksyscall_entry
run_op-exit p op w e small =
    let asked : KsyscallTrapFrame = record zero_frame {
      rax = nr_exit;
      rdi = sign_extend op.exit_status;
    } in
    simp (
      prepare-exit p op w e,
      dispatch-exit (some p.task) (regs_of asked) w refl,
      u32-sign_extend op.exit_status small,
      e,
    )

-- An exit operation of a process that runs ends the loop there, however many operations are left:
-- with success, the operation's own exit status, and the world as it was.
pub run_loop-exit :
    (n : ℕ) (ops : List KuserOp) (ip : ℕ) (p : KuserProcess) (op : KuserOp) (w : World)
    → p.exited ≡ false
    → get_elem? ops ip ≡ some op
    → op.opcode ≡ op_exit
    → op.exit_status < 2 ^ 32
    → run_loop (suc n) ops ip p w
      ≡ ok
          (
            KuserError.success,
            record p {
              exited = true;
              exit_status = op.exit_status;
              last_syscall_error = KsyscallError.success;
            },
          )
          w
run_loop-exit n ops ip p op w running at e small =
    let q : KuserProcess = record p {
      exited = true;
      exit_status = op.exit_status;
      last_syscall_error = KsyscallError.success;
    } in
    run_loop_step n ops ip p q op KuserError.success w w running at (run_op-exit p op w e small)
    ∙ run_loop_exited n ops (ip + 1) q w refl
