-- ===== src/Kvm/Slots.antt =====
-- src/part-10-microvm-memory/kvm_memory_slots.c: two memory slots of a virtual machine without a vCPU.
pub mod Balance
use Prim.Native.String.{String}
use mini_isolation_lab.Base.{
  ℕ, ◌+◌, ◌-◌, ◌*◌, ◌%◌, ◌^◌, none, [], ◌∷◌, ◌++◌, ◌!=◌, ltb, if◌then◌else◌,
}
use mini_isolation_lab.Host.{
  Text, lit, text, number, hex, error_text, Flag, Region, Request, Call, done, failed, Prog, ret,
  exit, ◌>>=◌, ◌>>◌, sys, do_call, errno, printf, fprintf, exit_success, exit_failure,
}
use mini_isolation_lab.Host.Format.{chars}
use mini_isolation_lab.Kvm.{kvm_api_version, open_kvm_device, checked_ioctl}

abbrev pub low_mem_size : ℕ
low_mem_size = 1 * 1024 * 1024

abbrev pub high_mem_size : ℕ
high_mem_size = 1 * 1024 * 1024

abbrev pub high_gpa : ℕ
high_gpa = 0x100000000

-- The number of <linux/kvm.h>.
abbrev pub kvm_cap_nr_memslots : ℕ
kvm_cap_nr_memslots = 10

unfoldable pub map_host_memory : ℕ → String → Prog ℕ
map_host_memory size label = do
  mapped ← sys (
      Call.mmap size (Flag.prot_read ∷ Flag.prot_write ∷ [])
        (Flag.map_private ∷ Flag.map_anonymous ∷ Flag.map_noreserve ∷ []) none)
  elim mapped [
    | failed err ↦ do
      e ← errno
      fprintf (lit "mmap " ∷ lit label ∷ lit ": " ∷ error_text e ∷ lit "\n" ∷ [])
      exit exit_failure
    | done addr ↦ ret addr
  ]

unfoldable pub set_memory_slot :
    ℕ → (slot guest_phys_addr userspace_addr size : ℕ) → String → Prog (Unit {0})
set_memory_slot vm_fd slot guest_phys_addr userspace_addr size label = do
  checked_ioctl vm_fd
      (Request.set_user_memory_region (record {
        slot = slot;
        guest_phys_addr = guest_phys_addr;
        memory_size = size;
        userspace_addr = userspace_addr;
      }))
      "KVM_SET_USER_MEMORY_REGION"
  printf (
      lit "registered slot "
      ∷ number slot
      ∷ lit ": guest 0x"
      ∷ hex guest_phys_addr
      ∷ lit "..0x"
      ∷ hex ((guest_phys_addr + size - 1) % 2 ^ 64)
      ∷ lit " -> host 0x"
      ∷ hex userspace_addr
      ∷ lit " ("
      ∷ lit label
      ∷ lit ")\n"
      ∷ [])

unfoldable pub remove_memory_slot : ℕ → (slot guest_phys_addr : ℕ) → Prog (Unit {0})
remove_memory_slot vm_fd slot guest_phys_addr = do
  checked_ioctl vm_fd
      (Request.set_user_memory_region (record {
        slot = slot;
        guest_phys_addr = guest_phys_addr;
        memory_size = 0;
        userspace_addr = 0;
      }))
      "KVM_SET_USER_MEMORY_REGION remove"
  printf (lit "removed slot " ∷ number slot ∷ lit "\n" ∷ [])

abbrev pub low_text : Text
low_text = chars "slot 0: low guest RAM"

abbrev pub high_text : Text
high_text = chars "slot 1: high guest RAM"

-- `main` from the machine on. What is printed of the memory is what was copied there.
unfoldable pub shape_memory : ℕ → ℕ → Prog ℕ
shape_memory kvm_fd vm_fd = do
  low_mem ← map_host_memory low_mem_size "low guest RAM"
  high_mem ← map_host_memory high_mem_size "high guest RAM"
  do_call (Call.memcpy low_mem (low_text ++ (0 ∷ [])))
  do_call (Call.memcpy high_mem (high_text ++ (0 ∷ [])))
  set_memory_slot vm_fd 0 0 low_mem low_mem_size "boot/low memory"
  set_memory_slot vm_fd 1 high_gpa high_mem high_mem_size "device or high memory window"
  printf (lit "host check: slot 0 says \"" ∷ text low_text ∷ lit "\"\n" ∷ [])
  printf (lit "host check: slot 1 says \"" ∷ text high_text ∷ lit "\"\n" ∷ [])
  printf (lit "no vCPU was created; this lesson only shapes the guest physical map\n" ∷ [])
  remove_memory_slot vm_fd 1 high_gpa
  remove_memory_slot vm_fd 0 0
  do_call (Call.munmap high_mem high_mem_size)
  do_call (Call.munmap low_mem low_mem_size)
  do_call (Call.close_fd vm_fd)
  do_call (Call.close_fd kvm_fd)
  ret exit_success

-- The headers define `KVM_CAP_NR_MEMSLOTS`.
unfoldable pub main : Prog ℕ
main = do
  kvm_fd ← open_kvm_device
  api_version ← checked_ioctl kvm_fd Request.get_api_version "KVM_GET_API_VERSION"
  printf (lit "KVM API version: " ∷ number api_version ∷ lit "\n" ∷ [])
  if api_version != kvm_api_version
      then (do
        fprintf (
            lit "KVM API mismatch: kernel returned "
            ∷ number api_version
            ∷ lit " but these headers expect "
            ∷ number kvm_api_version
            ∷ lit ".\n"
            ∷ [])
        do_call (Call.close_fd kvm_fd)
        ret exit_failure)
      else (do
        max_slots ←
            checked_ioctl kvm_fd (Request.check_extension kvm_cap_nr_memslots)
              "KVM_CHECK_EXTENSION(KVM_CAP_NR_MEMSLOTS)"
        printf (lit "KVM reports " ∷ number max_slots ∷ lit " memory slots available\n" ∷ [])
        if ltb max_slots 2
            then (do
              fprintf (lit "need at least two memory slots for this lesson\n" ∷ [])
              do_call (Call.close_fd kvm_fd)
              ret exit_failure)
            else (do
              vm_fd ← checked_ioctl kvm_fd Request.create_vm "KVM_CREATE_VM"
              shape_memory kvm_fd vm_fd))
