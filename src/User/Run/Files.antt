-- ===== src/User/Run/Files.antt =====
-- What the operations on files do: an open and a read, from the operation to the kernel and back.
use mini_isolation_lab.Base.{
  ℕ, ◌+◌, ◌<◌, ◌≤◌, ◌≡◌, ◌⊎◌, inl, inr, refl, sym, true, false, arith, Option, none, some, List, [],
  ◌∷◌, zero, suc, length, set, get_elem?, leb,
}
use mini_isolation_lab.Base.Words.{u32, sign_extend, is_negative32}
use mini_isolation_lab.Machine.{World, Run, KfsNode, ok, with_mem}
use mini_isolation_lab.Machine.Memory.{overlay}
use mini_isolation_lab.Fs.Catalog.{Entry}
use mini_isolation_lab.Syscall.{
  Ktask, KtaskFile, KsyscallError, KsyscallResult, nr_open, nr_read, sys_open,
}
use mini_isolation_lab.Syscall.Files.{
  used_at, opened_file, open_at, named_file, OpenOutcome, sys_open_outcome,
}
use mini_isolation_lab.Syscall.Read.{next_bytes, sys_read_outcome}
use mini_isolation_lab.Syscall.Numbers.{dispatch-open, dispatch-read}
use mini_isolation_lab.SyscallEntry.{KsyscallTrapFrame, ksyscall_entry, regs_of}
use mini_isolation_lab.User.{
  KuserError, KuserOp, KuserProcess, ready, prepare, user_range_ok, user_ptr, op_open, op_read,
  zero_frame, max_fd_slots,
}
use mini_isolation_lab.User.Ranges.{user_range_ok-contains}
use mini_isolation_lab.User.Run.{run_frame, run_op}
use mini_isolation_lab.User.Run.Keeps.{IsRunnable}

get_elem?_lt : (xs : List ℕ) (i x : ℕ) → get_elem? xs i ≡ some x → i < length xs
get_elem?_lt [] i x e = cc
get_elem?_lt (y ∷ ys) zero x e = omega arith
get_elem?_lt (y ∷ ys) (suc i) x e = let later = get_elem?_lt ys i x e in omega (arith, later)

prepare-open :
    (p : KuserProcess) (op : KuserOp) (w : World)
    → op.opcode ≡ op_open
    → leb max_fd_slots op.fd_slot ≡ false
    → user_range_ok op.offset op.len ≡ true
    → prepare p op w
      ≡ ok (ready (record zero_frame { rax = nr_open; rdi = user_ptr p op.offset; rsi = op.len })) w
unfolding prepare
prepare-open p op w e slot good = simp (e, slot, good)

prepare-read :
    (p : KuserProcess) (op : KuserOp) (fd : ℕ) (w : World)
    → op.opcode ≡ op_read
    → leb max_fd_slots op.fd_slot ≡ false
    → get_elem? p.fd_slots op.fd_slot ≡ some fd
    → is_negative32 fd ≡ false
    → user_range_ok op.offset op.len ≡ true
    → prepare p op w
      ≡ ok
          (ready (record zero_frame {
            rax = nr_read;
            rdi = sign_extend fd;
            rsi = user_ptr p op.offset;
            rdx = op.len;
          }))
          w
unfolding prepare
prepare-read p op fd w e slot at positive good = simp (e, slot, at, positive, good)

-- An error of the kernel ends the operation, and is kept beside the runtime's own.
abbrev pub failed_with : KuserProcess → KsyscallError → KuserProcess
failed_with p e = record p { last_syscall_error = e; last_error = KuserError.esyscall }

-- What an open operation does, by the file that its path names.
abbrev pub Opened :
    KuserProcess → ℕ → Option KfsNode → World → Run (KuserError × KuserProcess) → Type 0
Opened p slot none w run = run ≡ ok (KuserError.esyscall, failed_with p KsyscallError.enoent) w
Opened p slot (some n) w run =
    ((fd : ℕ) × (3 ≤ fd)
      × (fd < 8)
      × (used_at p.task.files fd ≡ false)
      × ((j : ℕ) → 3 ≤ j → j < fd → used_at p.task.files j ≡ true)
      × (run
          ≡ ok
              (
                KuserError.success,
                record p {
                  task = record p.task { files = set p.task.files fd (opened_file n) };
                  fd_slots = set p.fd_slots slot fd;
                  last_syscall_error = KsyscallError.success;
                },
              )
              w))
    ⊎ (((j : ℕ) → 3 ≤ j → j < 8 → used_at p.task.files j ≡ true)
        × (run ≡ ok (KuserError.esyscall, failed_with p KsyscallError.emfile) w))

-- An open operation with one of the four slots and a range of the process' array, on a process in
-- order. If the path names a file and a descriptor from 3 to 7 is free, it succeeds: the lowest
-- free one of the task is now at the start of the file and stands in the operation's slot, and
-- nothing else changes but that the last error of a system call is none. If no descriptor is free,
-- or the path names no file, it fails with `KUSER_ESYSCALL`, which is recorded beside the kernel's
-- error, and nothing else changes.
pub run_op-Opened :
    (es : List Entry) (p : KuserProcess) (op : KuserOp) (w : World)
    → IsRunnable es p w
    → op.opcode ≡ op_open
    → op.fd_slot < 4
    → user_range_ok op.offset op.len ≡ true
    → Opened p op.fd_slot (named_file es w (user_ptr p op.offset) op.len) w (run_op p op w)
unfolding run_op run_frame ksyscall_entry
run_op-Opened es p op w r e small good =
    let inside = user_range_ok-contains p op.offset op.len r.home good in
    let (out, run, opens) = sys_open_outcome es p.task (user_ptr p op.offset) op.len w r.sound in
    go (named_file es w (user_ptr p op.offset) op.len) out run (rw (sym inside) opens)
  where
    slot : leb max_fd_slots op.fd_slot ≡ false
    slot = ground (arith, small)

    asked : KsyscallTrapFrame
    asked = record zero_frame { rax = nr_open; rdi = user_ptr p op.offset; rsi = op.len }

    go :
        (file : Option KfsNode) (out : KsyscallResult × Option Ktask)
        → sys_open (some p.task) (user_ptr p op.offset) op.len w ≡ ok out w
        → OpenOutcome true file p.task out
        → Opened p op.fd_slot file w (run_op p op w)
    go none out run o = simp (
      prepare-open p op w e slot good,
      dispatch-open (some p.task) (regs_of asked) w refl,
      run,
      o,
    )
    go (some n) out run (inr (full, o)) = inr (
      full,
      simp (
        prepare-open p op w e slot good,
        dispatch-open (some p.task) (regs_of asked) w refl,
        run,
        o,
      ),
    )
    go (some n) out run (inl (fd, from, to, free, before, o)) =
        let word : u32 fd ≡ fd = omega (arith, to) in
        inl (
          fd,
          from,
          to,
          free,
          before,
          simp (
            prepare-open p op w e slot good,
            dispatch-open (some p.task) (regs_of asked) w refl,
            run,
            o,
            e,
            word,
          ),
        )

-- A read operation on a slot that holds an open descriptor below 8 and on a range of the process'
-- array, on a process in order, succeeds: the file's next bytes, as many as are asked for and
-- left, stand at the start of the range, the descriptor is moved behind them, the last error of a
-- system call is none, and nothing else changes.
pub run_op-read :
    (es : List Entry) (p : KuserProcess) (op : KuserOp) (fd : ℕ) (f : KtaskFile) (w : World)
    → IsRunnable es p w
    → op.opcode ≡ op_read
    → get_elem? p.fd_slots op.fd_slot ≡ some fd
    → fd < 8
    → open_at p.task.files fd ≡ some f
    → user_range_ok op.offset op.len ≡ true
    → let bs = next_bytes w.mem f.node f.offset op.len in
      run_op p op w
      ≡ ok
          (
            KuserError.success,
            record p {
              task = record p.task {
                files = set p.task.files fd (record f { offset = f.offset + length bs });
              };
              last_syscall_error = KsyscallError.success;
            },
          )
          (with_mem w (overlay w.mem (user_ptr p op.offset) bs))
unfolding run_op run_frame ksyscall_entry
run_op-read es p op fd f w r e at small opened good =
    let inside = user_range_ok-contains p op.offset op.len r.home good in
    let slot : leb max_fd_slots op.fd_slot ≡ false =
      ground (arith, get_elem?_lt p.fd_slots op.fd_slot fd at, r.slots) in
    let positive : is_negative32 fd ≡ false = ground (arith, small) in
    let asked : KsyscallTrapFrame = record zero_frame {
      rax = nr_read;
      rdi = fd;
      rsi = user_ptr p op.offset;
      rdx = op.len;
    } in
    simp (
      prepare-read p op fd w e slot at positive good,
      positive,
      dispatch-read (some p.task) (regs_of asked) w refl,
      sys_read_outcome es p.task fd (user_ptr p op.offset) op.len w r.sound,
      opened,
      inside,
      e,
    )
