-- ===== src/User/Run/Keeps.antt =====
-- What the rounds of `kuser_run` may change of a process and its world.
use mini_isolation_lab.Base.{
  ℕ, ◌<◌, ◌≡◌, ◌⊎◌, inl, inr, refl, sym, ap, ◌∙◌, ◌||◌, arith, Option, none, some, List, length,
  Bool-cases, length-set, if◌then◌else◌, ◌==◌, leb,
}
use mathlib.Core.Path.{subst}
use mini_isolation_lab.Base.Words.{u32, is_negative32, minus_one32}
use mini_isolation_lab.Machine.{World, Run, ok}
use mini_isolation_lab.Machine.Memory.{SameOutside, SameOutside-refl, SameOutside-trans}
use mini_isolation_lab.Fs.Catalog.{Entry}
use mini_isolation_lab.Syscall.{Ktask, KsyscallError}
use mini_isolation_lab.Syscall.State.{IsSound}
use mini_isolation_lab.Syscall.Keeps.{Keeps}
use mini_isolation_lab.Syscall.Dispatch.{ksyscall_dispatch-Answers}
use mini_isolation_lab.SyscallEntry.{KsyscallTrapFrame, ksyscall_entry, regs_of, with_result}
use mini_isolation_lab.User.{
  KuserError, KuserOp, KuserProcess, Prepared, refused, ready, prepared, prepare, open_slot,
  memory_size, max_fd_slots, op_read, op_close,
}
use mini_isolation_lab.User.Ranges.{IsHome}
use mini_isolation_lab.User.Run.{after_frame, run_frame, settle, after_op, run_op}
use mini_isolation_lab.Syscall.Files.{get_elem?_of_lt}

-- A process that can run: its task is in order with these files mounted.
pub record IsRunnable (es : List Entry) (p : KuserProcess) (w : World) : Type 0 where
  pub sound : IsSound es p.task w
  pub home : IsHome p
  pub slots : length p.fd_slots ≡ max_fd_slots

-- What a run may change: the process can still run, it stays where it is, and memory outside its
-- array is as it was.
pub record Ran (es : List Entry) (p p' : KuserProcess) (w w' : World) : Type 0 where
  pub runnable : IsRunnable es p' w'
  pub place : p'.memory ≡ p.memory
  pub memory : SameOutside p.memory memory_size w.mem w'.mem

pub Ran-refl : (es : List Entry) (p : KuserProcess) (w : World) → IsRunnable es p w → Ran es p p w w
Ran-refl es p w r = record {
  runnable = r;
  place = refl;
  memory = SameOutside-refl p.memory memory_size w.mem;
}

pub Ran-trans :
    (es : List Entry) (p p' p'' : KuserProcess) (w w' w'' : World)
    → Ran es p p' w w'
    → Ran es p' p'' w' w''
    → Ran es p p'' w w''
Ran-trans es p p' p'' w w' w'' a b = record {
  runnable = b.runnable;
  place = b.place ∙ a.place;
  memory =
      SameOutside-trans p.memory memory_size w.mem w'.mem w''.mem a.memory
        (subst (λ base. SameOutside base memory_size w'.mem w''.mem) a.place b.memory);
}

-- The run ends, with no more changes than these, and an error that it returns is recorded.
abbrev pub Finishes : List Entry → KuserProcess → World → Run (KuserError × KuserProcess) → Type 0
Finishes es p w run =
    (err : KuserError) × (p' : KuserProcess) × (w' : World) × (run ≡ ok (err, p') w')
    × Ran es p p' w w'
    × ((err ≡ KuserError.success) ⊎ (p'.last_error ≡ err))

-- Of the process only these three parts matter here.
pub Ran-fields :
    (es : List Entry) (p q q' : KuserProcess) (w w' : World)
    → q'.task ≡ q.task
    → q'.memory ≡ q.memory
    → length q'.fd_slots ≡ length q.fd_slots
    → Ran es p q w w'
    → Ran es p q' w w'
Ran-fields es p q q' w w' task place slots ran = record {
  runnable = record {
    sound = subst (λ t. IsSound es t w') (sym task) ran.runnable.sound;
    home = record {
      base = ap (λ (t : Ktask). t.user_base) task ∙ ran.runnable.home.base ∙ sym place;
      size = ap (λ (t : Ktask). t.user_len) task ∙ ran.runnable.home.size;
      no_wrap = omega (arith, place, ran.runnable.home.no_wrap);
    };
    slots = slots ∙ ran.runnable.slots;
  };
  place = place ∙ ran.place;
  memory = ran.memory;
}

after_frame_fields :
    (p : KuserProcess) (t : Ktask) (f : KsyscallTrapFrame)
    → let q = (after_frame p t f).1 in
      (q.task ≡ t) × (q.memory ≡ p.memory) × (q.fd_slots ≡ p.fd_slots)
after_frame_fields p t f = ground arith

after_op_error :
    (op : KuserOp) (out : KuserError × KuserProcess × KsyscallTrapFrame)
    → let (err, p) = after_op op out in (err ≡ KuserError.success) ⊎ (p.last_error ≡ err)
after_op_error op (KuserError.success, p, f) = inl refl
after_op_error op (KuserError.efault, p, f) = inr refl
after_op_error op (bad, p, f) = inr refl

settle_fields :
    (p : KuserProcess) (op : KuserOp) (result : ℕ)
    → let q = settle p op result in
      (q.task ≡ p.task) × (q.memory ≡ p.memory) × (length q.fd_slots ≡ length p.fd_slots)
settle_fields p op result = ground (
  arith,
  length-set p.fd_slots op.fd_slot (u32 result),
  length-set p.fd_slots op.fd_slot minus_one32,
)

after_op_fields :
    (op : KuserOp) (out : KuserError × KuserProcess × KsyscallTrapFrame)
    → let q = (after_op op out).1 in
      (q.task ≡ out.1.task)
      × (q.memory ≡ out.1.memory)
      × (length q.fd_slots ≡ length out.1.fd_slots)
after_op_fields op (KuserError.success, p, f) = settle_fields p op f.result
after_op_fields op (KuserError.efault, p, f) = (refl, refl, refl)
after_op_fields op (bad, p, f) = (refl, refl, refl)

module _ (es : List Entry) (p : KuserProcess) (w : World) (r : IsRunnable es p w) where
  Ran-Keeps :
      (t' : Ktask) (e : KsyscallError) (w' : World)
      → Keeps es p.task t' w w'
      → Ran es p (record p { task = t'; last_syscall_error = e }) w w'
  Ran-Keeps t' e w' k = record {
    runnable = record {
      sound = k.sound;
      home = record {
        base = ap (λ (t : Ktask). t.user_base) k.task ∙ r.home.base;
        size = ap (λ (t : Ktask). t.user_len) k.task ∙ r.home.size;
        no_wrap = r.home.no_wrap;
      };
      slots = r.slots;
    };
    place = refl;
    memory =
        subst (λ n. SameOutside p.memory n w.mem w'.mem) r.home.size
          (subst (λ base. SameOutside base p.task.user_len w.mem w'.mem) r.home.base k.memory);
  }

  -- `run_frame` returns, whatever the frame asks for.
  run_frame-Ran :
      (frame : KsyscallTrapFrame)
      → (out : KuserError × KuserProcess × KsyscallTrapFrame) × (w' : World) × (run_frame p frame w
          ≡ ok out w')
        × Ran es p out.1 w w'
  unfolding run_frame ksyscall_entry
  run_frame-Ran frame =
      let (res, t', w', run, k) = ksyscall_dispatch-Answers es p.task w (regs_of frame) r.sound in
      let f = with_result frame res in
      let (task, place, slots) = after_frame_fields p t' f in
      (
        after_frame p t' f,
        w',
        rw run,
        Ran-fields es p (record p { task = t'; last_syscall_error = res.error })
            (after_frame p t' f).1 w w' task place (ap length slots) (Ran-Keeps t' res.error w' k),
      )

  open_slot_returns : (i : ℕ) → (o : Option ℕ) × (open_slot p i w ≡ ok o w)
  unfolding open_slot
  open_slot_returns i = elim (Bool-cases (leb max_fd_slots i)) [
    | inl e ↦ (none, rw e)
    | inr e ↦
        let bound : i < max_fd_slots = ground arith in
        let (fd, at) = get_elem?_of_lt p.fd_slots i (omega (arith, r.slots)) in
        ((if is_negative32 fd then none else some fd), rw (e, at))
  ]

  -- `prepare` looks at nothing that is not there, and changes nothing.
  prepare_returns : (op : KuserOp) → (what : Prepared) × (prepare p op w ≡ ok what w)
  unfolding prepare
  prepare_returns op = elim (Bool-cases ((op.opcode == op_read) || (op.opcode == op_close))) [
    | inl e ↦
        let (slot, found) = open_slot_returns op.fd_slot in (prepared p op slot, rw (e, found))
    | inr e ↦ (prepared p op none, rw e)
  ]

  -- A round of the loop returns; on a failure the error is the one recorded.
  pub run_op-Ran : (op : KuserOp) → Finishes es p w (run_op p op w)
  unfolding run_op
  run_op-Ran op = let (what, run) = prepare_returns op in go what run
    where
      go : (what : Prepared) → prepare p op w ≡ ok what w → Finishes es p w (run_op p op w)
      go (refused e) run =
          let p' : KuserProcess = record p { last_error = e } in
          (e, p', w, rw run, Ran-fields es p p p' w w refl refl refl (Ran-refl es p w r), inr refl)
      go (ready frame) run =
          let (out, w', done, ran) = run_frame-Ran frame in
          let (err, p') = after_op op out in
          let (task, place, slots) = after_op_fields op out in
          (
            err,
            p',
            w',
            rw (run, done),
            Ran-fields es p out.1 p' w w' task place slots ran,
            after_op_error op out,
          )
