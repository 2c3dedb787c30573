-- ===== src/User/Init.antt =====
-- The place of a process, and what `kuser_init_process` makes there.
use mini_isolation_lab.Base.{
  ℕ, zero, suc, ◌+◌, ◌^◌, ◌<◌, ◌≡◌, refl, ap, false, arith, some, List, length, replicate,
}
use mathlib.Core.Path.{subst}
use mini_isolation_lab.Base.Words.{minus_one32}
use mini_isolation_lab.Machine.{Addr, World, ok, with_mem}
use mini_isolation_lab.Machine.Memory.{Room, SameOutside, overlay, overlay-SameOutside}
use mini_isolation_lab.KernelLib.Copy.{kmemset-overlay}
use mini_isolation_lab.Fs.Catalog.{Entry, IsMounted}
use mini_isolation_lab.Syscall.{Ktask, KsyscallError, no_file, max_files}
use mini_isolation_lab.Syscall.State.{IsSound, IsOpenFile, AllPlaced, IsSound-frame}
use mini_isolation_lab.Syscall.Write.{CanWrite}
use mini_isolation_lab.User.{
  KuserError, KuserProcess, kuser_init_process, memory_size, max_fd_slots,
}
use mini_isolation_lab.User.Run.Keeps.{IsRunnable}

-- A place for a process' array, apart from the mounted files, and an output for its bytes.
pub record IsPlace (es : List Entry) (memory : Addr) (write_byte : Addr) (w : World) : Type 0 where
  pub mounted : IsMounted w es
  pub placed : AllPlaced w.mem memory memory_size es
  pub room : Room w.mem memory memory_size
  pub based : 0 < memory
  pub no_wrap : memory + memory_size < 2 ^ 64
  pub output : (t : Ktask) → t.write_byte ≡ write_byte → CanWrite t w

abbrev pub new_task : Addr → ℕ → Addr → ℕ → Ktask
new_task memory pid write_byte write_ctx = record {
  pid = pid;
  user_base = memory;
  user_len = memory_size;
  write_byte = write_byte;
  write_ctx = write_ctx;
  files = replicate max_files no_file;
}

length-replicate : (n v : ℕ) → length (replicate n v) ≡ n
length-replicate zero v = refl
length-replicate (suc n) v = ap suc (length-replicate n v)

pub zeroed :
    (n : ℕ) (w : World) (memory : Addr)
    → Room w.mem memory n
    → SameOutside memory n w.mem (overlay w.mem memory (replicate n 0))
zeroed n w memory room =
    subst (λ k. SameOutside memory k w.mem (overlay w.mem memory (replicate n 0)))
      (length-replicate n 0)
      (overlay-SameOutside w.mem memory (replicate n 0) (rw length-replicate room))

no_file-IsOpenFile : (w : World) (base len : ℕ) → IsOpenFile w.mem base len no_file
no_file-IsOpenFile w base len = record { node = λ n e. cc; offset = omega arith }

new_task-IsSound :
    (es : List Entry) (memory pid write_byte write_ctx : ℕ) (w : World)
    → IsPlace es memory write_byte w
    → IsSound es (new_task memory pid write_byte write_ctx) w
new_task-IsSound es memory pid write_byte write_ctx w place =
    let f = no_file-IsOpenFile w memory memory_size in
    record {
      mounted = place.mounted;
      placed = place.placed;
      room = place.room;
      based = place.based;
      files = (f, (f, (f, (f, (f, (f, (f, (f, tt))))))));
      table = refl;
      can_write = place.output (new_task memory pid write_byte write_ctx) refl;
    }

abbrev pub new_process : Addr → ℕ → Addr → ℕ → KuserProcess
new_process memory pid write_byte write_ctx = record {
  task = new_task memory pid write_byte write_ctx;
  memory = memory;
  fd_slots = replicate max_fd_slots minus_one32;
  exited = false;
  exit_status = 0;
  last_error = KuserError.success;
  last_syscall_error = KsyscallError.success;
}

-- What `kuser_init_process` makes, whatever is mounted.
pub kuser_init_process-new_process :
    (memory pid write_byte write_ctx : ℕ) (w : World)
    → 0 < memory
    → Room w.mem memory memory_size
    → kuser_init_process (some memory) pid write_byte write_ctx w
      ≡ ok
          (some (new_process memory pid write_byte write_ctx))
          (with_mem w (overlay w.mem memory (replicate memory_size 0)))
unfolding kuser_init_process
kuser_init_process-new_process memory pid write_byte write_ctx w based room =
    rw (kmemset-overlay memory 0 memory_size w (omega (arith, based)) room)

pub new_process-IsRunnable :
    (es : List Entry) (memory pid write_byte write_ctx : ℕ) (w : World)
    → IsPlace es memory write_byte w
    → IsRunnable es
        (new_process memory pid write_byte write_ctx)
        (with_mem w (overlay w.mem memory (replicate memory_size 0)))
new_process-IsRunnable es memory pid write_byte write_ctx w place = record {
  sound =
      IsSound-frame es (new_task memory pid write_byte write_ctx) w
        (overlay w.mem memory (replicate memory_size 0)) w.trace w.reads
        (new_task-IsSound es memory pid write_byte write_ctx w place)
        (zeroed memory_size w memory place.room);
  home = record { base = refl; size = refl; no_wrap = place.no_wrap };
  slots = refl;
}

-- `kuser_init_process` at a place for a process: the array is all zeros, memory elsewhere is as it
-- was, every slot is free, and the process can run with the given identity and output. Hypothesis:
-- the place is mapped, apart from the mounted files, does not go round the end of the address
-- space, and its output can take bytes.
pub kuser_init_process-IsRunnable :
    (es : List Entry) (memory pid write_byte write_ctx : ℕ) (w : World)
    → IsPlace es memory write_byte w
    → (p : KuserProcess) × (w' : World) × (kuser_init_process
          (some memory)
          pid
          write_byte
          write_ctx
          w
        ≡ ok (some p) w')
      × IsRunnable es p w'
      × (w' ≡ with_mem w (overlay w.mem memory (replicate memory_size 0)))
      × (p.fd_slots ≡ replicate max_fd_slots minus_one32)
      × (p.exited ≡ false)
      × (p.task ≡ new_task memory pid write_byte write_ctx)
kuser_init_process-IsRunnable es memory pid write_byte write_ctx w place = (
  new_process memory pid write_byte write_ctx,
  with_mem w (overlay w.mem memory (replicate memory_size 0)),
  kuser_init_process-new_process memory pid write_byte write_ctx w place.based place.room,
  new_process-IsRunnable es memory pid write_byte write_ctx w place,
  refl,
  refl,
  refl,
  refl,
)
