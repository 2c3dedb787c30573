-- ===== src/Kvm.antt =====
-- What the programs of src/part-08-kvm, src/part-09-microvm, src/part-10-microvm-memory and
-- src/part-13-kvm-capabilities share, in the same words in each file; a child module for each program.
pub mod Opening
pub mod Api
pub mod Firecracker
pub mod Slots
pub mod Capabilities
use Prim.Native.String.{String}
use mini_isolation_lab.Base.{ℕ, List, [], ◌∷◌, ◌==◌, ◌!=◌, ◌||◌, if◌then◌else◌}
use mini_isolation_lab.Host.{
  lit, number, error_text, Flag, Request, RequestReply, Call, done, failed, Prog, ret, exit, ◌>>=◌,
  ◌>>◌, sys, do_call, errno, printf, fprintf, perror, exit_failure, enoent, enodev, eacces, eperm,
}
use mini_isolation_lab.Host.Format.{chars}

-- The number of <linux/kvm.h>.
abbrev pub kvm_api_version : ℕ
kvm_api_version = 12

unfoldable pub die : {A : Type 0} → String → Prog A
die msg = perror msg >> exit exit_failure

unfoldable pub explain_open_kvm_error : ℕ → Prog (Unit {0})
explain_open_kvm_error err = do
  fprintf (lit "open /dev/kvm: " ∷ error_text err ∷ lit "\n" ∷ [])
  if (err == enoent) || (err == enodev)
      then fprintf (
          lit "hint: /dev/kvm is missing. Enable KVM virtualization in the "
          ∷ lit "host kernel/firmware, load the kvm module, or run this on a "
          ∷ lit "Linux host with hardware virtualization.\n"
          ∷ [])
      else if (err == eacces) || (err == eperm)
      then fprintf (
          lit "hint: permission denied. Add your user to the kvm group, fix "
          ∷ lit "/dev/kvm permissions, or run with sudo for this demo.\n"
          ∷ [])
      else ret tt

unfoldable pub open_kvm_device : Prog ℕ
open_kvm_device = do
  opened ← sys (Call.open_file (chars "/dev/kvm") (Flag.o_rdwr ∷ Flag.o_cloexec ∷ []))
  elim opened [
    | done kvm_fd ↦ ret kvm_fd
    | failed err ↦ do e ← errno; explain_open_kvm_error e; exit exit_failure
  ]

-- `checked_ioctl`, for the requests of these programs, whose reply is a number.
unfoldable pub checked_ioctl : ℕ → (request : Request) → String → Prog (RequestReply request)
checked_ioctl fd request name = do
  got ← sys (Call.ioctl fd request)
  elim got [
    | failed err ↦ do
      e ← errno
      fprintf (lit name ∷ lit ": " ∷ error_text e ∷ lit "\n" ∷ [])
      exit exit_failure
    | done answer ↦ ret answer
  ]
