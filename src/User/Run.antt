-- ===== src/User/Run.antt =====
-- The second half of mini-kernel/kernel/user.c: `run_frame` and the loop of `kuser_run`.
pub mod Files
pub mod Keeps
pub mod Program
pub mod Steps
use mini_isolation_lab.Base.{
  ℕ, zero, suc, ◌+◌, Bool, true, false, not, Option, none, some, List, ◌==◌, ltb, if◌then◌else◌,
  get_elem?, set,
}
use mini_isolation_lab.Base.Words.{u32, minus_one32}
use mini_isolation_lab.Machine.{Cmd, pure, ◌>>=◌, ◌>>◌, must}
use mini_isolation_lab.KernelLib.{kmemcpy_checked}
use mini_isolation_lab.Fs.{kfs_mount}
use mini_isolation_lab.Syscall.{Ktask, KsyscallError}
use mini_isolation_lab.SyscallEntry.{KsyscallTrapFrame, ksyscall_entry}
use mini_isolation_lab.User.{
  KuserError, KuserOp, KuserProgram, KuserProcess, Prepared, refused, ready, prepare, memory_size,
  op_open, op_close,
}

abbrev pub is_success : KsyscallError → Bool
is_success KsyscallError.success = true
is_success _ = false

-- What `run_frame` makes of the frame that the kernel gives back.
abbrev pub after_frame :
    KuserProcess → Ktask → KsyscallTrapFrame → KuserError × KuserProcess × KsyscallTrapFrame
after_frame process task f =
    let p : KuserProcess = record process { task = task; last_syscall_error = f.error } in
    if not (is_success f.error)
    then (KuserError.esyscall, p, f)
    else if f.should_exit
    then (KuserError.success, record p { exited = true; exit_status = f.exit_status }, f)
    else (KuserError.success, p, f)

pub run_frame :
    KuserProcess → KsyscallTrapFrame → Cmd (KuserError × KuserProcess × KsyscallTrapFrame)
run_frame process frame = do
  (task', frame') ← ksyscall_entry (some process.task) (some frame)
  task ← must task'
  f ← must frame'
  pure (after_frame process task f)

-- What the loop keeps of a successful call: the descriptor of a file that was opened, or that the
-- slot is free again.
abbrev pub settle : KuserProcess → KuserOp → ℕ → KuserProcess
settle process op result =
    if op.opcode == op_open
    then record process { fd_slots = set process.fd_slots op.fd_slot (u32 result) }
    else if op.opcode == op_close
    then record process { fd_slots = set process.fd_slots op.fd_slot minus_one32 }
    else process

-- The end of a round: an error is recorded and returned, a success settled.
abbrev pub after_op :
    KuserOp → KuserError × KuserProcess × KsyscallTrapFrame → KuserError × KuserProcess
after_op op (KuserError.success, p, f) = (KuserError.success, settle p op f.result)
after_op op (bad, p, f) = (bad, record p { last_error = bad })

-- One round of the loop of `kuser_run`; it goes on only after `success`.
pub run_op : KuserProcess → KuserOp → Cmd (KuserError × KuserProcess)
unfolding run_frame
run_op process op = do
  what ← prepare process op
  elim what [
    | refused e ↦ pure (e, record process { last_error = e })
    | ready frame ↦ do out ← run_frame process frame; pure (after_op op out)
  ]

-- From operation `ip` on, with this many left.
pub run_loop : ℕ → List KuserOp → ℕ → KuserProcess → Cmd (KuserError × KuserProcess)
run_loop zero ops ip process = pure (KuserError.success, process)
run_loop (suc n) ops ip process = if process.exited then pure (KuserError.success, process) else do
  op ← must (get_elem? ops ip)
  (err, p) ← run_op process op
  elim err [ KuserError.success ↦ run_loop n ops (ip + 1) p | bad ↦ pure (bad, p) ]

-- What follows operation `ip`.
abbrev go_on : ℕ → List KuserOp → ℕ → KuserError → KuserProcess → Cmd (KuserError × KuserProcess)
go_on n ops ip err p = elim err [
  | KuserError.success ↦ run_loop n ops (ip + 1) p
  | bad ↦ pure (bad, p)
]

-- `kuser_run` once its arguments are known not to be `NULL`.
pub run_program : KuserProcess → KuserProgram → List KuserOp → Cmd (KuserError × KuserProcess)
unfolding run_loop run_op
run_program process program ops =
    if ltb memory_size program.initial_memory_len then pure (KuserError.efault, process) else do
      copied ←
          kmemcpy_checked process.memory memory_size program.initial_memory
            program.initial_memory_len
      if not copied then pure (KuserError.efault, process) else do
        kfs_mount program.fs_nodes program.fs_node_count
        run_loop program.op_count ops 0 (record process {
          last_error = KuserError.success;
          last_syscall_error = KsyscallError.success;
        })

pub kuser_run : Option KuserProcess → Option KuserProgram → Cmd (KuserError × Option KuserProcess)
unfolding run_program
kuser_run none program = pure (KuserError.einval, none)
kuser_run (some process) none = pure (KuserError.einval, some process)
kuser_run (some process) (some program) = elim program.ops [
  | none ↦ pure (KuserError.einval, some process)
  | some ops ↦ do (err, p) ← run_program process program ops; pure (err, some p)
]
