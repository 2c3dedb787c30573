-- ===== src/User/Run/Program.antt =====
-- `kuser_run`: a whole program.
use mini_isolation_lab.Base.{
  ℕ, zero, suc, ◌+◌, ◌≤◌, ◌≡◌, ◌≢◌, ◌⊎◌, inl, inr, refl, sym, true, false, arith, some, List,
  length, Bool-cases, get_elem?, ltb,
}
use mathlib.Core.Path.{subst}
use mini_isolation_lab.Machine.{World, ok, null, with_mem}
use mini_isolation_lab.Machine.Memory.{
  Room, Apart, SameOutside-widen, overlay-SameOutside, overlay, peek, length-peek,
}
use mini_isolation_lab.Fs.{kfs_mount}
use mini_isolation_lab.Fs.Catalog.{Entry}
use mini_isolation_lab.Syscall.{KsyscallError}
use mini_isolation_lab.Syscall.State.{IsSound-frame}
use mini_isolation_lab.User.{KuserError, KuserOp, KuserProgram, KuserProcess, memory_size}
use mini_isolation_lab.User.Run.Keeps.{
  IsRunnable, Ran, Finishes, Ran-refl, Ran-trans, Ran-fields, run_op-Ran,
}
use mini_isolation_lab.User.Run.{run_op, go_on, run_loop, run_program, kuser_run}
use mini_isolation_lab.KernelLib.Copy.{kmemcpy_checked-overlay}
use mini_isolation_lab.Syscall.Files.{get_elem?_of_lt}

pub run_loop_step :
    (n : ℕ) (ops : List KuserOp) (ip : ℕ) (p p' : KuserProcess) (op : KuserOp) (err : KuserError)
    (w w' : World)
    → p.exited ≡ false
    → get_elem? ops ip ≡ some op
    → run_op p op w ≡ ok (err, p') w'
    → run_loop (suc n) ops ip p w ≡ go_on n ops ip err p' w'
unfolding run_loop
run_loop_step n ops ip p p' op err w w' e at run = simp (e, at, run)

pub run_loop_exited :
    (n : ℕ) (ops : List KuserOp) (ip : ℕ) (p : KuserProcess) (w : World)
    → p.exited ≡ true
    → run_loop n ops ip p w ≡ ok (KuserError.success, p) w
unfolding run_loop
run_loop_exited zero ops ip p w e = refl
run_loop_exited (suc n) ops ip p w e = simp e

-- The loop returns.
run_loop-Ran :
    (n : ℕ) (es : List Entry) (ops : List KuserOp) (ip : ℕ) (p : KuserProcess) (w : World)
    → IsRunnable es p w
    → ip + n ≤ length ops
    → Finishes es p w (run_loop n ops ip p w)
unfolding run_loop
run_loop-Ran zero es ops ip p w r h = (KuserError.success, p, w, refl, Ran-refl es p w r, inl refl)
run_loop-Ran (suc n) es ops ip p w r h = elim (Bool-cases p.exited) [
  | inl e ↦
      (KuserError.success, p, w, run_loop_exited (suc n) ops ip p w e, Ran-refl es p w r, inl refl)
  | inr e ↦
      let (op, at) = get_elem?_of_lt ops ip (omega arith) in
      let (err, p', w', run, ran, good) = run_op-Ran es p w r op in
      subst (Finishes es p w) (sym (run_loop_step n ops ip p p' op err w w' e at run))
        (next err p' w' ran good (run_loop-Ran n es ops (ip + 1) p' w' ran.runnable (omega arith)))
]
  where
    next :
        (err : KuserError) (p' : KuserProcess) (w' : World)
        → Ran es p p' w w'
        → (err ≡ KuserError.success) ⊎ (p'.last_error ≡ err)
        → Finishes es p' w' (run_loop n ops (ip + 1) p' w')
        → Finishes es p w (go_on n ops ip err p' w')
    next KuserError.success p' w' ran good (err, q, v, run, ran', good') =
        (err, q, v, run, Ran-trans es p p' q w w' v ran ran', good')
    next KuserError.efault p' w' ran good rest = (KuserError.efault, p', w', refl, ran, good)
    next bad p' w' ran good rest = (bad, p', w', refl, ran, good)

-- The world in which a program's files are mounted.
abbrev pub mounted_world : World → KuserProgram → World
mounted_world w prog = record w {
  mounted_nodes = prog.fs_nodes;
  mounted_count = prog.fs_node_count;
}

-- A program whose arrays are as long as it says, and whose initial memory is mapped apart from the
-- process' own.
pub record IsProgram (p : KuserProcess) (prog : KuserProgram) (ops : List KuserOp) (w : World)
    : Type 0 where
  pub listed : prog.ops ≡ some ops
  pub count : prog.op_count ≤ length ops
  pub small : prog.initial_memory_len ≤ memory_size
  pub there : prog.initial_memory ≢ null
  pub room : Room w.mem prog.initial_memory prog.initial_memory_len
  pub apart : Apart p.memory prog.initial_memory_len prog.initial_memory prog.initial_memory_len

-- Copying the initial memory keeps the process in order.
copied-Ran :
    (es : List Entry) (p : KuserProcess) (w : World) (bs : List ℕ)
    → IsRunnable es p w
    → length bs ≤ memory_size
    → Ran es p p w (with_mem w (overlay w.mem p.memory bs))
copied-Ran es p w bs r small =
    let m = overlay w.mem p.memory bs in
    let room : Room w.mem p.memory (length bs) = λ a l u.
      r.sound.room a (omega (arith, r.home.base)) (omega (arith, r.home.base, r.home.size)) in
    let change = overlay-SameOutside w.mem p.memory bs room in
    let in_task =
      SameOutside-widen p.memory (length bs) p.task.user_base p.task.user_len w.mem m
        (λ a l u. (omega (arith, r.home.base), omega (arith, r.home.base, r.home.size))) change in
    record {
      runnable = record {
        sound = IsSound-frame es p.task w m w.trace w.reads r.sound in_task;
        home = r.home;
        slots = r.slots;
      };
      place = refl;
      memory =
          SameOutside-widen p.memory (length bs) p.memory memory_size w.mem m
            (λ a l u. (omega arith, omega arith)) change;
    }

-- `kuser_run` of a program on a process in order returns, whatever its operations are: none of
-- them makes the kernel fault or loop for ever, memory outside the process' array is as it was,
-- the process can run again, and an error that is returned is the one recorded. Hypotheses: the
-- process is in order with the program's files mounted, and the program's arrays are as long as it
-- says, its initial memory no longer than the process' array, mapped, and apart from it.
pub kuser_run-Finishes :
    (es : List Entry) (p : KuserProcess) (prog : KuserProgram) (ops : List KuserOp) (w : World)
    → IsRunnable es p (mounted_world w prog)
    → IsProgram p prog ops w
    → (err : KuserError) × (p' : KuserProcess) × (w' : World) × (kuser_run (some p) (some prog) w
        ≡ ok (err, some p') w')
      × Ran es p p' (mounted_world w prog) w'
      × ((err ≡ KuserError.success) ⊎ (p'.last_error ≡ err))
unfolding kuser_run run_program kfs_mount
kuser_run-Finishes es p prog ops w r prg =
    let bs = peek w.mem prog.initial_memory prog.initial_memory_len in
    let n = length-peek w.mem prog.initial_memory prog.initial_memory_len in
    let mw = mounted_world w prog in
    let w1 = with_mem mw (overlay w.mem p.memory bs) in
    let q : KuserProcess = record p {
      last_error = KuserError.success;
      last_syscall_error = KsyscallError.success;
    } in
    let start =
      Ran-fields es p p q mw w1 refl refl refl (copied-Ran es p mw bs r (rw n prg.small)) in
    let (err, p', w', run, ran, good) =
      run_loop-Ran prog.op_count es ops 0 q w1 start.runnable (omega (arith, prg.count)) in
    let copied =
      kmemcpy_checked-overlay p.memory memory_size prog.initial_memory prog.initial_memory_len w
        prg.small (omega (arith, r.sound.based, r.home.base)) prg.there
        (λ a l u.
          r.sound.room a (omega (arith, r.home.base))
            (omega (arith, r.home.base, r.home.size, prg.small)))
        prg.room prg.apart in
    let fits : ltb memory_size prog.initial_memory_len ≡ false = ground (arith, prg.small) in
    (
      err,
      p',
      w',
      simp (prg.listed, fits, copied, run),
      Ran-trans es p q p' mw w1 w' start ran,
      good,
    )
