-- ===== src/Kvm/Firecracker.antt =====
-- src/part-09-microvm/mini_firecracker.c: a monitor of one virtual machine with one vCPU.
pub mod Watch
pub mod Loop
pub mod Release
use mini_isolation_lab.Base.{
  ℕ, zero, suc, ◌+◌, ◌*◌, ◌%◌, Bool, true, false, Option, none, some, List, [], ◌∷◌, ◌==◌, ◌!=◌,
  ◌||◌, ltb, if◌then◌else◌,
}
use mini_isolation_lab.Host.{
  Text, lit, text, number, hex, error_text, Flag, Region, Segment, Sregs, Regs, KvmRun, Request,
  RequestReply, Call, Answer, done, failed, int_value, Prog, ret, exit, ◌>>=◌, ◌>>◌, sys, do_call,
  errno, printf, fprintf, fflush, exit_success, exit_failure, eintr, out_of_fuel,
}
use mini_isolation_lab.Kvm.{kvm_api_version, die, explain_open_kvm_error, open_kvm_device}

abbrev pub guest_mem_size : ℕ
guest_mem_size = 2 * 1024 * 1024

abbrev pub guest_entry : ℕ
guest_entry = 0x1000

abbrev pub debug_port : ℕ
debug_port = 0xE9

-- The numbers of <linux/kvm.h>.
abbrev pub kvm_exit_io_out : ℕ
kvm_exit_io_out = 1

unfoldable pub kvm_ioctl : ℕ → (request : Request) → Prog (RequestReply request)
kvm_ioctl fd request = do
  got ← sys (Call.ioctl fd request)
  elim got [ failed e ↦ die "ioctl" | done answer ↦ ret answer ]

abbrev pub guest_code : Text
guest_code =
    0xbe ∷ 0x0e ∷ 0x10 ∷ 0xac ∷ 0x84 ∷ 0xc0 ∷ 0x74 ∷ 0x04 ∷ 0xe6 ∷ debug_port ∷ 0xeb ∷ 0xf7 ∷ 0xf4
    ∷ 0x00 ∷ b'h' ∷ b'e' ∷ b'l' ∷ b'l' ∷ b'o' ∷ b' ' ∷ b'f' ∷ b'r' ∷ b'o' ∷ b'm' ∷ b' ' ∷ b'a'
    ∷ b' ' ∷ b't' ∷ b'i' ∷ b'n' ∷ b'y' ∷ b' ' ∷ b'm' ∷ b'i' ∷ b'c' ∷ b'r' ∷ b'o' ∷ b'V' ∷ b'M'
    ∷ b'\n' ∷ 0x00 ∷ []

-- `base` and `selector` are set to 0.
abbrev pub zero_segment : Segment → Segment
zero_segment s = record s { base = 0; selector = 0 }

abbrev pub real_mode : Sregs → Sregs
real_mode sregs = record sregs {
  cs = zero_segment sregs.cs;
  ds = zero_segment sregs.ds;
  es = zero_segment sregs.es;
  ss = zero_segment sregs.ss;
}

abbrev pub start_regs : Regs
start_regs = record { rflags = 0x2; rip = guest_entry; rsp = 0x200000 }

unfoldable pub setup_real_mode : ℕ → Prog (Unit {0})
setup_real_mode vcpu_fd = do
  sregs ← kvm_ioctl vcpu_fd Request.get_sregs
  kvm_ioctl vcpu_fd (Request.set_sregs (real_mode sregs))
  kvm_ioctl vcpu_fd (Request.set_regs start_regs)
  ret tt

-- `putchar` of the bytes from the i-th on, this many.
unfoldable pub put_bytes : ℕ → ℕ → (ℕ → ℕ) → Prog (Unit {0})
put_bytes zero i bytes = ret tt
put_bytes (suc k) i bytes = do printf (text ((bytes i % 256) ∷ []) ∷ []); put_bytes k (suc i) bytes

unfoldable pub handle_io_exit : KvmRun → Prog (Unit {0})
handle_io_exit run =
    if (run.direction != kvm_exit_io_out) || (run.size != 1) || (run.port != debug_port)
    then (do
      fprintf (
          lit "\nunhandled I/O exit: direction="
          ∷ number run.direction
          ∷ lit " size="
          ∷ number run.size
          ∷ lit " port=0x"
          ∷ hex run.port
          ∷ lit "\n"
          ∷ [])
      exit exit_failure)
    else (do put_bytes run.count 0 run.bytes; fflush)

-- Where the run loop goes after an exit: on, or to `done` or `fail`.
pub data Leave : Type 0 where
  at_done at_fail : Leave

pub data Handled : Type 0 where
  again : Handled
  leave : Leave → Handled

-- The cases of the `switch`; the numbers are those of <linux/kvm.h>.
pub data ExitKind : Type 0 where
  exit_io exit_hlt exit_fail_entry exit_internal_error exit_other : ExitKind

unfoldable pub exit_kind : ℕ → ExitKind
exit_kind reason =
    if reason == 2
    then ExitKind.exit_io
    else if reason == 5
    then ExitKind.exit_hlt
    else if reason == 9
    then ExitKind.exit_fail_entry
    else if reason == 17
    then ExitKind.exit_internal_error
    else ExitKind.exit_other

unfoldable pub handle_exit : KvmRun → ExitKind → Prog Handled
handle_exit run ExitKind.exit_io = do handle_io_exit run; ret Handled.again
handle_exit run ExitKind.exit_hlt = do
  printf (lit "host VMM: guest halted\n" ∷ [])
  ret (Handled.leave Leave.at_done)
handle_exit run ExitKind.exit_fail_entry = do
  fprintf (
      lit "KVM_EXIT_FAIL_ENTRY hardware_entry_failure_reason=0x"
      ∷ hex run.hardware_entry_failure_reason
      ∷ lit "\n"
      ∷ [])
  ret (Handled.leave Leave.at_fail)
handle_exit run ExitKind.exit_internal_error = do
  fprintf (lit "KVM_EXIT_INTERNAL_ERROR suberror=" ∷ number run.suberror ∷ lit "\n" ∷ [])
  ret (Handled.leave Leave.at_fail)
handle_exit run ExitKind.exit_other = do
  fprintf (lit "unhandled KVM exit reason: " ∷ number run.exit_reason ∷ lit "\n" ∷ [])
  ret (Handled.leave Leave.at_fail)

abbrev pub after_exit : Prog Leave → Handled → Prog Leave
after_exit rest Handled.again = rest
after_exit rest (Handled.leave l) = ret l

unfoldable pub run_failed : Prog Leave → Prog Leave
run_failed rest = do e ← errno; if e == eintr then rest else die "KVM_RUN"

-- The loop around `KVM_RUN`, with this many rounds.
unfoldable pub run_loop : ℕ → ℕ → Prog Leave
run_loop zero vcpu_fd = out_of_fuel
run_loop (suc k) vcpu_fd = do
  ran ← sys (Call.ioctl vcpu_fd Request.run)
  elim ran [
    | failed e ↦ run_failed (run_loop k vcpu_fd)
    | done run ↦ do
      handled ← handle_exit run (exit_kind run.exit_reason)
      after_exit (run_loop k vcpu_fd) handled
  ]

-- What `main` holds when the vCPU starts.
pub record Held : Type 0 where
  pub kvm_fd : ℕ
  pub vm_fd : ℕ
  pub vcpu_fd : ℕ
  pub guest_mem : ℕ
  pub run : ℕ
  pub run_mmap_size : ℕ

-- The labels `done` and `fail`: the same calls, and another value.
unfoldable pub release : Held → Leave → Prog ℕ
release held at = do
  do_call (Call.munmap held.run held.run_mmap_size)
  do_call (Call.munmap held.guest_mem guest_mem_size)
  do_call (Call.close_fd held.vcpu_fd)
  do_call (Call.close_fd held.vm_fd)
  do_call (Call.close_fd held.kvm_fd)
  elim at [ Leave.at_done ↦ ret exit_success | Leave.at_fail ↦ ret exit_failure ]

-- `main` from the registers of the vCPU on.
unfoldable pub start_vcpu : ℕ → Held → Prog ℕ
start_vcpu fuel held = do
  setup_real_mode held.vcpu_fd
  printf (lit "host VMM: starting vCPU\n" ∷ [])
  at ← run_loop fuel held.vcpu_fd
  release held at

abbrev pub whole_memory : ℕ → Region
whole_memory guest_mem = record {
  slot = 0;
  guest_phys_addr = 0;
  memory_size = guest_mem_size;
  userspace_addr = guest_mem;
}

-- `kvm_run_size` is `sizeof(struct kvm_run)` of the kernel's headers.
module _ (kvm_run_size : ℕ) where
  -- `main` from the vCPU's memory on.
  unfoldable pub map_run : ℕ → (kvm_fd vm_fd vcpu_fd guest_mem : ℕ) → Prog ℕ
  map_run fuel kvm_fd vm_fd vcpu_fd guest_mem = do
    got ← sys (Call.ioctl kvm_fd Request.get_vcpu_mmap_size)
    let small : Bool = elim got [ failed e ↦ true | done n ↦ ltb n kvm_run_size ]
    if small
        then (do
          fprintf (lit "KVM_GET_VCPU_MMAP_SIZE returned too small a size\n" ∷ [])
          ret exit_failure)
        else (do
          let run_mmap_size = int_value got
          mapped ← sys (
              Call.mmap run_mmap_size (Flag.prot_read ∷ Flag.prot_write ∷ []) (Flag.map_shared ∷ [])
                (some vcpu_fd))
          elim mapped [
            | failed e ↦ die "mmap kvm_run"
            | done run ↦ start_vcpu fuel (record {
              kvm_fd = kvm_fd;
              vm_fd = vm_fd;
              vcpu_fd = vcpu_fd;
              guest_mem = guest_mem;
              run = run;
              run_mmap_size = run_mmap_size;
            })
          ])

  -- `main` from the machine on.
  unfoldable pub create_machine : ℕ → ℕ → Prog ℕ
  create_machine fuel kvm_fd = do
    vm_fd ← kvm_ioctl kvm_fd Request.create_vm
    mapped ← sys (
        Call.mmap guest_mem_size (Flag.prot_read ∷ Flag.prot_write ∷ [])
          (Flag.map_private ∷ Flag.map_anonymous ∷ Flag.map_noreserve ∷ []) none)
    elim mapped [
      | failed e ↦ die "mmap guest memory"
      | done guest_mem ↦ do
        do_call (Call.memcpy (guest_mem + guest_entry) guest_code)
        kvm_ioctl vm_fd (Request.set_user_memory_region (whole_memory guest_mem))
        vcpu_fd ← kvm_ioctl vm_fd (Request.create_vcpu 0)
        map_run fuel kvm_fd vm_fd vcpu_fd guest_mem
    ]

  unfoldable pub main : ℕ → Prog ℕ
  main fuel = do
    kvm_fd ← open_kvm_device
    asked ← sys (Call.ioctl kvm_fd Request.get_api_version)
    elim asked [
      | failed err ↦ do
        e ← errno
        fprintf (lit "KVM_GET_API_VERSION: " ∷ error_text e ∷ lit "\n" ∷ [])
        do_call (Call.close_fd kvm_fd)
        ret exit_failure
      | done api_version ↦
          if api_version != kvm_api_version
          then (do
            fprintf (
                lit "KVM API mismatch: kernel returned "
                ∷ number api_version
                ∷ lit " but these headers expect "
                ∷ number kvm_api_version
                ∷ lit
                    ". Build against headers matching the running kernel or use a compatible host.\n"
                ∷ [])
            do_call (Call.close_fd kvm_fd)
            ret exit_failure)
          else create_machine fuel kvm_fd
    ]
