-- ===== src/Examples/Programs.antt =====
-- A program on the small machine's process: write the path, open it, exit.
use mini_isolation_lab.Base.{
  ℕ, ◌≡◌, ◌⊎◌, inl, refl, true, false, arith, some, set, List, [], ◌∷◌, replicate,
}
use mini_isolation_lab.Base.Words.{minus_one32}
use mini_isolation_lab.Machine.{World, ok, with_mem}
use mini_isolation_lab.Machine.Memory.{overlay, peek}
use mini_isolation_lab.Console.Output.{sent}
use mini_isolation_lab.Syscall.{KsyscallError, task_contains_user_range}
use mini_isolation_lab.Syscall.Files.{opened_file}
use mini_isolation_lab.Syscall.Write.{written}
use mini_isolation_lab.Fs.{node_is_valid}
use mini_isolation_lab.Fs.Catalog.{find}
use mini_isolation_lab.User.{
  KuserError, KuserOp, KuserProgram, KuserProcess, kuser_init_process, user_range_ok, memory_size,
  max_fd_slots, op_write, op_open, op_read, op_exit,
}
use mini_isolation_lab.User.Ranges.{user_range_ok-contains}
use mini_isolation_lab.User.Init.{IsPlace, new_task, kuser_init_process-IsRunnable}
use mini_isolation_lab.User.Run.{run_op, run_loop, kuser_run}
use mini_isolation_lab.User.Run.Keeps.{IsRunnable, Ran}
use mini_isolation_lab.User.Run.Program.{IsProgram, kuser_run-Finishes}
use mini_isolation_lab.User.Run.Files.{Opened, run_op-Opened, run_op-read}
use mini_isolation_lab.User.Run.Steps.{run_op-written, run_loop-exit}
use mini_isolation_lab.Examples.World.{
  bytes, motd, catalog, machine, files, task, process, process-IsHome, process-IsRunnable,
  task-IsSound, bytes-Room, machine-IsMounted,
}

abbrev op : ℕ → KuserOp
op opcode = record {
  opcode = opcode;
  fd_slot = 0;
  offset = 0;
  len = 1;
  aux_offset = 0;
  aux_len = 0;
  exit_status = 5;
}

abbrev ops : List KuserOp
ops = op op_write ∷ op op_open ∷ op op_exit ∷ []

abbrev program : KuserProgram
program = record {
  initial_memory = 2000;
  initial_memory_len = 4;
  ops = some ops;
  op_count = 3;
  fs_nodes = some (motd ∷ []);
  fs_node_count = 1;
}

program-IsProgram : IsProgram process program ops machine
program-IsProgram = record {
  listed = refl;
  count = omega arith;
  small = omega arith;
  there = λ e. omega (arith, e);
  room = bytes-Room 2000 4 (omega arith);
  apart = λ a l u. inl (omega arith);
}

kuser_run-Finishes_example :
    (err : KuserError) × (p' : KuserProcess) × (w' : World) × (kuser_run
        (some process)
        (some program)
        machine
      ≡ ok (err, some p') w')
    × Ran catalog process p' machine w'
    × ((err ≡ KuserError.success) ⊎ (p'.last_error ≡ err))
kuser_run-Finishes_example =
    kuser_run-Finishes catalog process program ops machine process-IsRunnable program-IsProgram

place : IsPlace catalog 1000 7 machine
place = record {
  mounted = machine-IsMounted;
  placed = task-IsSound.placed;
  room = bytes-Room 1000 memory_size (omega arith);
  based = omega arith;
  no_wrap = omega arith;
  output = λ t e n. absurd (omega (arith, e, n));
}

kuser_init_process-IsRunnable_example :
    (p : KuserProcess) × (w' : World) × (kuser_init_process (some 1000) 2 7 9 machine
      ≡ ok (some p) w')
    × IsRunnable catalog p w'
    × (w' ≡ with_mem machine (overlay bytes 1000 (replicate memory_size 0)))
    × (p.fd_slots ≡ replicate max_fd_slots minus_one32)
    × (p.exited ≡ false)
    × (p.task ≡ new_task 1000 2 7 9)
kuser_init_process-IsRunnable_example =
    kuser_init_process-IsRunnable catalog 1000 2 7 9 machine place

run_op-written_example :
    (n : ℕ) × (run_op process (op op_write) machine
      ≡ ok
          (KuserError.success, record process { last_syscall_error = KsyscallError.success })
          (sent machine (written task (peek bytes 1000 1)) n))
unfolding user_range_ok
run_op-written_example =
    run_op-written catalog process (op op_write) machine process-IsRunnable refl refl

run_op-Opened_example : Opened process 0 (some motd) machine (run_op process (op op_open) machine)
unfolding user_range_ok peek find node_is_valid
run_op-Opened_example =
    run_op-Opened catalog process (op op_open) machine process-IsRunnable refl (omega arith) refl

-- The process with the file that is open in its first slot.
abbrev reader : KuserProcess
reader = record process { fd_slots = 3 ∷ 5 ∷ 5 ∷ 5 ∷ [] }

reader-IsRunnable : IsRunnable catalog reader machine
reader-IsRunnable = record {
  sound = process-IsRunnable.sound;
  home = record {
    base = process-IsHome.base;
    size = process-IsHome.size;
    no_wrap = process-IsHome.no_wrap;
  };
  slots = refl;
}

-- One byte of the file, past its first one.
run_op-read_example :
    run_op reader (op op_read) machine
    ≡ ok
        (
          KuserError.success,
          record reader {
            task = record task { files = set files 3 (record (opened_file motd) { offset = 2 }) };
            last_syscall_error = KsyscallError.success;
          },
        )
        (with_mem machine (overlay bytes 1000 (peek bytes 21 1)))
unfolding user_range_ok peek node_is_valid
run_op-read_example =
    run_op-read catalog reader (op op_read) 3 (record (opened_file motd) { offset = 1 }) machine
      reader-IsRunnable refl refl (omega arith) refl refl

run_loop-exit_example :
    run_loop 9 ops 2 process machine
    ≡ ok
        (
          KuserError.success,
          record process {
            exited = true;
            exit_status = 5;
            last_syscall_error = KsyscallError.success;
          },
        )
        machine
run_loop-exit_example =
    run_loop-exit 8 ops 2 process (op op_exit) machine refl refl refl (omega arith)

user_range_ok-contains_example : task_contains_user_range (some task) 1010 502 ≡ true
unfolding user_range_ok
user_range_ok-contains_example = user_range_ok-contains process 10 502 process-IsHome refl
