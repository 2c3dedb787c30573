-- ===== src/Caps.antt =====
-- src/part-14-capabilities/drop_capabilities.c: the process gives up its capabilities.
pub mod Dropped
use Prim.Native.String.{String}
use mini_isolation_lab.Base.{
  ℕ, Bool, List, [], ◌∷◌, ◌*◌, ◌%◌, ◌^◌, bit_or, ◌==◌, ◌!=◌, ◌||◌, ◌&&◌, if◌then◌else◌,
}
use mini_isolation_lab.Base.Words.{u32, u64}
use mini_isolation_lab.Host.{
  lit, number, hex, error_text, CapData, Call, done, failed, Prog, ret, exit, ◌>>=◌, ◌>>◌, sys,
  do_call, errno, printf, fprintf, perror, exit_success, exit_failure, eperm, eacces,
}
use mini_isolation_lab.Status.{print_status_field}

unfoldable pub die : {A : Type 0} → String → Prog A
die msg = perror msg >> exit exit_failure

unfoldable pub print_cap_snapshot : ℕ → String → Prog (Unit {0})
print_cap_snapshot fuel label = do
  print_status_field fuel label "Uid:"
  print_status_field fuel label "CapInh:"
  print_status_field fuel label "CapPrm:"
  print_status_field fuel label "CapEff:"
  print_status_field fuel label "CapBnd:"

-- Both halves of the sets; the header asks for version 3 and for the process itself.
unfoldable pub get_caps : Prog (CapData × CapData)
get_caps = do got ← sys Call.capget; elim got [ failed e ↦ die "capget" | done caps ↦ ret caps ]

abbrev pub zero_caps : CapData
zero_caps = record { effective = 0; permitted = 0; inheritable = 0 }

unfoldable pub drop_process_caps : Prog (Unit {0})
drop_process_caps = do
  set ← sys (Call.capset (zero_caps, zero_caps))
  elim set [ failed e ↦ die "capset" | done n ↦ ret tt ]

-- The fields are 32-bit words.
abbrev pub effective_caps_to_u64 : CapData × CapData → ℕ
effective_caps_to_u64 (low, high) = bit_or (u64 (u32 high.effective * 2 ^ 32)) (u32 low.effective)

unfoldable pub try_raw_socket : String → Prog (Unit {0})
try_raw_socket label = do
  got ← sys Call.raw_icmp_socket
  elim got [
    | done fd ↦ do
      printf (lit label ∷ lit ": raw ICMP socket opened (CAP_NET_RAW was effective)\n" ∷ [])
      do_call (Call.close_fd fd)
    | failed err ↦ do
      e ← errno
      if (e == eperm) || (e == eacces)
          then printf (lit label ∷ lit ": raw ICMP socket denied: " ∷ error_text e ∷ lit "\n" ∷ [])
          else printf (
              lit label
              ∷ lit ": raw ICMP socket failed for another reason: "
              ∷ error_text e
              ∷ lit "\n"
              ∷ [])
  ]

-- The end of `main`, with the capabilities before and after.
unfoldable pub judge : CapData × CapData → CapData × CapData → Prog ℕ
judge (before_low, before_high) after =
    if effective_caps_to_u64 after != 0
    then (do
      fprintf (
          lit "expected zero effective capabilities after capset, got 0x"
          ∷ hex (effective_caps_to_u64 after)
          ∷ lit "\n"
          ∷ [])
      ret exit_failure)
    else (do
      if (u32 before_low.effective == 0) && (u32 before_high.effective == 0)
          then printf (
              lit "note: this process already started without effective capabilities; "
              ∷ lit "the capset call still proves the drop path is available.\n"
              ∷ [])
          else printf (lit "capability drop succeeded: effective capability set is now zero\n" ∷ [])
      ret exit_success)

-- `main` from the drop on.
unfoldable pub drop_and_check : ℕ → CapData × CapData → Prog ℕ
drop_and_check fuel before = do
  drop_process_caps
  print_cap_snapshot fuel "after"
  after ← get_caps
  try_raw_socket "after drop"
  judge before after

unfoldable pub main : ℕ → Prog ℕ
main fuel = do
  printf (lit "capability demo: drop effective/permitted/inheritable sets\n" ∷ [])
  print_cap_snapshot fuel "before"
  before ← get_caps
  try_raw_socket "before drop"
  drop_and_check fuel before
