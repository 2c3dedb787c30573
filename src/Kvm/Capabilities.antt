-- ===== src/Kvm/Capabilities.antt =====
-- src/part-13-kvm-capabilities/kvm_capabilities.c: the checklist of extensions. The headers define each of them.
pub mod Ready
use Prim.Native.String.{String}
use mini_isolation_lab.Base.{
  ℕ, zero, suc, Bool, true, false, [], ◌∷◌, ◌!=◌, ◌&&◌, ltb, leb, if◌then◌else◌,
}
use mini_isolation_lab.Host.{
  Text, lit, text, number, Request, Call, Prog, ret, ◌>>=◌, ◌>>◌, do_call, printf, fprintf,
  exit_success, exit_failure,
}
use mini_isolation_lab.Host.Format.{chars}
use mini_isolation_lab.Kvm.{kvm_api_version, open_kvm_device, checked_ioctl}

pub data CapKind : Type 0 where
  cap_boolean cap_count : CapKind

-- The numbers of <linux/kvm.h>.
abbrev pub kvm_cap_irqchip : ℕ
kvm_cap_irqchip = 0

abbrev pub kvm_cap_user_memory : ℕ
kvm_cap_user_memory = 3

abbrev pub kvm_cap_nr_memslots : ℕ
kvm_cap_nr_memslots = 10

abbrev pub kvm_cap_mp_state : ℕ
kvm_cap_mp_state = 14

abbrev pub kvm_cap_irqfd : ℕ
kvm_cap_irqfd = 32

abbrev pub kvm_cap_ioeventfd : ℕ
kvm_cap_ioeventfd = 36

-- `%-24s`: at least 24 characters, with spaces on the right.
unfoldable pub pad : ℕ → Text → Text
pad zero cs = cs
pad (suc n) [] = b' ' ∷ pad n []
pad (suc n) (c ∷ cs) = c ∷ pad n cs

unfoldable pub print_value : CapKind → String → ℕ → Prog (Unit {0})
print_value CapKind.cap_count name value =
    printf (text (pad 24 (chars name)) ∷ lit " value=" ∷ number value ∷ [])
print_value CapKind.cap_boolean name value = do
  printf (text (pad 24 (chars name)) ∷ lit " " ∷ lit (if ltb 0 value then "yes" else "no") ∷ [])
  if ltb 1 value then printf (lit " (value=" ∷ number value ∷ lit ")" ∷ []) else ret tt

-- A failing `ioctl` ends the program, so the value is not negative.
unfoldable pub check_capability : ℕ → ℕ → String → CapKind → Bool → String → Prog ℕ
check_capability kvm_fd capability name kind required why = do
  value ← checked_ioctl kvm_fd (Request.check_extension capability) "KVM_CHECK_EXTENSION"
  print_value kind name value
  printf (lit " - " ∷ lit why ∷ [])
  if required && leb value 0 then printf (lit " [required for this path]" ∷ []) else ret tt
  printf (lit "\n" ∷ [])
  ret value

-- The extensions that may be missing.
unfoldable pub check_optional : ℕ → Prog (Unit {0})
check_optional kvm_fd = do
  check_capability kvm_fd kvm_cap_irqchip "KVM_CAP_IRQCHIP" CapKind.cap_boolean false
      "in-kernel interrupt controller support"
  check_capability kvm_fd kvm_cap_ioeventfd "KVM_CAP_IOEVENTFD" CapKind.cap_boolean false
      "eventfd notification path used by virtio-style devices"
  check_capability kvm_fd kvm_cap_irqfd "KVM_CAP_IRQFD" CapKind.cap_boolean false
      "eventfd-based interrupt injection used by VMM devices"
  check_capability kvm_fd kvm_cap_mp_state "KVM_CAP_MP_STATE" CapKind.cap_boolean false
      "read/write vCPU multiprocessing state when supported"
  ret tt

-- `main` from the first extension on.
unfoldable pub checklist : ℕ → Prog ℕ
checklist kvm_fd = do
  printf (lit "microVM/VMM capability checklist:\n" ∷ [])
  user_memory ←
      check_capability kvm_fd kvm_cap_user_memory "KVM_CAP_USER_MEMORY" CapKind.cap_boolean true
        "userspace-backed guest RAM via KVM_SET_USER_MEMORY_REGION"
  memslots ←
      check_capability kvm_fd kvm_cap_nr_memslots "KVM_CAP_NR_MEMSLOTS" CapKind.cap_count true
        "maximum memory regions the VMM can register"
  let ready = ltb 0 user_memory && ltb 0 memslots
  check_optional kvm_fd
  printf (lit "\n" ∷ [])
  if ready
      then printf (
          lit "baseline result: this host exposes the core KVM pieces needed "
          ∷ lit "to map guest RAM for a tiny VMM.\n"
          ∷ [])
      else printf (
          lit "baseline result: missing a core capability for the tiny VMM "
          ∷ lit "memory path checked by this lesson.\n"
          ∷ [])
  do_call (Call.close_fd kvm_fd)
  ret (if ready then exit_success else exit_failure)

unfoldable pub main : Prog ℕ
main = do
  kvm_fd ← open_kvm_device
  api_version ← checked_ioctl kvm_fd Request.get_api_version "KVM_GET_API_VERSION"
  printf (lit "KVM API version: " ∷ number api_version ∷ lit "\n" ∷ [])
  printf (lit "expected by headers: " ∷ number kvm_api_version ∷ lit "\n\n" ∷ [])
  if api_version != kvm_api_version
      then (do
        fprintf (
            lit "KVM API mismatch: kernel returned "
            ∷ number api_version
            ∷ lit " but these headers expect "
            ∷ number kvm_api_version
            ∷ lit ".\n"
            ∷ [])
        do_call (Call.close_fd kvm_fd)
        ret exit_failure)
      else checklist kvm_fd
