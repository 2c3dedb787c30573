-- ===== src/Status.antt =====
-- `print_status_field` of src/part-11-hardening/container_hardening.c and, in the same words, of
-- src/part-14-capabilities/drop_capabilities.c: lines of /proc/self/status. The buffer of `getline` is not modelled.
pub mod Reading
use Prim.Native.String.{String}
use mini_isolation_lab.Base.{
  ℕ, zero, suc, Bool, true, false, Option, none, some, List, [], ◌∷◌, ◌==◌, ◌&&◌, if◌then◌else◌,
}
use mini_isolation_lab.Host.{
  Text, lit, text, error_text, Call, done, failed, Prog, ret, ◌>>=◌, ◌>>◌, sys, do_call, errno,
  printf, fprintf, out_of_fuel,
}
use mini_isolation_lab.Host.Format.{chars}

-- `strncmp(line, field, strlen(field)) == 0`.
unfoldable pub starts_with : Text → Text → Bool
starts_with [] line = true
starts_with (c ∷ cs) [] = false
starts_with (c ∷ cs) (d ∷ ds) = (c == d) && starts_with cs ds

-- A line: it is printed and the loop ends, or the rest of the loop.
unfoldable pub on_line : Prog (Unit {0}) → String → Text → Text → Prog (Unit {0})
on_line rest label field line =
    if starts_with field line then printf (lit label ∷ lit ": " ∷ text line ∷ []) else rest

-- The loop over the lines, with this many rounds.
unfoldable pub read_lines : ℕ → String → Text → ℕ → Prog (Unit {0})
read_lines zero label field file = out_of_fuel
read_lines (suc k) label field file = do
  got ← sys (Call.getline file)
  elim got [
    | done (some line) ↦ on_line (read_lines k label field file) label field line
    | done none ↦ ret tt
    | failed e ↦ ret tt
  ]

unfoldable pub print_status_field : ℕ → String → String → Prog (Unit {0})
print_status_field fuel label field = do
  opened ← sys (Call.fopen (chars "/proc/self/status"))
  elim opened [
    | failed err ↦ do
      e ← errno
      fprintf
          (lit label ∷ lit ": could not open /proc/self/status: " ∷ error_text e ∷ lit "\n" ∷ [])
    | done status ↦ do read_lines fuel label (chars field) status; do_call (Call.fclose status)
  ]
