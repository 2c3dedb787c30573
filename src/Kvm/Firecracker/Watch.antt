-- ===== src/Kvm/Firecracker/Watch.antt =====
-- The virtual machine as the calls of mini_firecracker.c leave it.
use mini_isolation_lab.Base.{
  bytes_eq, ℕ, zero, suc, ◌+◌, ◌-◌, ◌%◌, Bool, false, Option, none, some, List, [], ◌∷◌, ◌++◌,
  length, ◌==◌, ◌!=◌, ◌||◌, ◌&&◌, leb, if◌then◌else◌,
}
use mini_isolation_lab.Host.{
  Text, Piece, Event, called, out, Region, Regs, KvmRun, Request, Call, done, failed,
}
use mini_isolation_lab.Host.Resources.{without, is_map}
use mini_isolation_lab.Kvm.Firecracker.{guest_code}

-- The open files and the mappings with their sizes; where the guest's code was copied to, the machine's memory and the registers of
-- its vCPU; how often the vCPU was run, and how often although the code did not stand where it would start; how
-- often it has halted; the bytes that it has sent to the port, and those shown; and how often it was stopped by other
-- input or output.
pub record Vm : Type 0 where
  pub fds : List ℕ
  pub maps : List (ℕ × ℕ)
  pub code : Option ℕ
  pub memory : Option Region
  pub regs : Option Regs
  pub runs : ℕ
  pub early : ℕ
  pub halts : ℕ
  pub sent : Text
  pub shown : Text
  pub foreign : ℕ

-- The host address of the first instruction is the code's, and the whole of the code lies in the memory.
abbrev pub starts_at : ℕ → Region → Regs → Bool
starts_at code memory regs =
    leb memory.guest_phys_addr regs.rip
    && (code == memory.userspace_addr + (regs.rip - memory.guest_phys_addr))
    && leb ((regs.rip - memory.guest_phys_addr) + length guest_code) memory.memory_size

abbrev pub placed : Option ℕ → Option Region → Option Regs → Bool
placed (some code) (some memory) (some regs) = starts_at code memory regs
placed _ _ _ = false

-- The bytes of an exit, from the i-th on.
abbrev pub bytes_from : ℕ → ℕ → (ℕ → ℕ) → Text
bytes_from zero i bytes = []
bytes_from (suc k) i bytes = bytes i % 256 ∷ bytes_from k (suc i) bytes

-- Anything but output of single bytes to port 0xe9.
abbrev pub elsewhere : KvmRun → Bool
elsewhere run = (run.direction != 1) || (run.size != 1) || (run.port != 0xe9)

abbrev pub after_io : Vm → KvmRun → Vm
after_io m run =
    if elsewhere run
    then record m { foreign = m.foreign + 1 }
    else record m { sent = m.sent ++ bytes_from run.count 0 run.bytes }

-- After an exit: 2 is KVM_EXIT_IO, and 5 is KVM_EXIT_HLT.
abbrev pub exited : Vm → KvmRun → Vm
exited m run =
    if run.exit_reason == 2
    then after_io m run
    else if run.exit_reason == 5
    then record m { halts = m.halts + 1 }
    else m

-- Before the exit of one run is looked at.
abbrev pub ran : Vm → Vm
ran m = record m {
  runs = m.runs + 1;
  early = if placed m.code m.memory m.regs then m.early else m.early + 1;
}

abbrev pub shown_in : List Piece → Text
shown_in [] = []
shown_in (Piece.text t ∷ ps) = t ++ shown_in ps
shown_in (_ ∷ ps) = shown_in ps

abbrev pub step : Vm → Event → Vm
step m (called (Call.open_file path flags) (done fd)) = record m { fds = fd ∷ m.fds }
step m (called (Call.close_fd fd) a) = record m { fds = without (λ y. fd == y) m.fds }
step m (called (Call.mmap size prot flags fd) (done addr)) = record m {
  maps = (addr, size) ∷ m.maps;
}
step m (called (Call.munmap addr size) a) = record m { maps = without (is_map (addr, size)) m.maps }
step m (called (Call.memcpy addr t) a) =
    if bytes_eq t guest_code then record m { code = some addr } else m
step m (called (Call.ioctl fd Request.create_vm) (done vm)) = record m { fds = vm ∷ m.fds }
step m (called (Call.ioctl fd (Request.create_vcpu id)) (done vcpu)) = record m {
  fds = vcpu ∷ m.fds;
}
step m (called (Call.ioctl fd (Request.set_user_memory_region r)) (done n)) = record m {
  memory = some r;
}
step m (called (Call.ioctl fd (Request.set_regs g)) (done n)) = record m { regs = some g }
step m (called (Call.ioctl fd Request.run) (failed e)) = ran m
step m (called (Call.ioctl fd Request.run) (done r)) = exited (ran m) r
step m (out ps) = record m { shown = m.shown ++ shown_in ps }
step m _ = m

-- Nothing is open or mapped.
abbrev pub no_vm : Vm
no_vm = record {
  fds = [];
  maps = [];
  code = none;
  memory = none;
  regs = none;
  runs = 0;
  early = 0;
  halts = 0;
  sent = [];
  shown = [];
  foreign = 0;
}
