-- ===== src/Basics/Processes.antt =====
-- src/part-03-processes/clone_process.c.
use mini_isolation_lab.Base.{ℕ, [], ◌∷◌, ◌*◌}
use mini_isolation_lab.Host.{
  lit, number, Flag, Call, done, failed, int_value, Prog, ret, ◌>>=◌, ◌>>◌, sys, do_call, printf,
  perror,
}

abbrev pub stack_size : ℕ
stack_size = 1024 * 1024

unfoldable pub child_main : Prog ℕ
child_main = do
  pid ← sys Call.getpid
  parent ← sys Call.getppid
  printf (
      lit "child: pid="
      ∷ number (int_value pid)
      ∷ lit " parent="
      ∷ number (int_value parent)
      ∷ lit "\n"
      ∷ [])
  ret 0

-- `main` with the stack of the child, which runs `child_main`.
unfoldable pub with_stack : ℕ → Prog ℕ
with_stack stack = do
  cloned ← sys (Call.clone (Flag.sigchld ∷ []))
  elim cloned [
    | failed e ↦ do perror "clone"; do_call (Call.free stack); ret 1
    | done child ↦ do
      pid ← sys Call.getpid
      printf (
          lit "parent: pid="
          ∷ number (int_value pid)
          ∷ lit " child="
          ∷ number child
          ∷ lit "\n"
          ∷ [])
      do_call (Call.waitpid child)
      do_call (Call.free stack)
      ret 0
  ]

unfoldable pub main : Prog ℕ
main = do
  got ← sys (Call.malloc stack_size)
  elim got [ failed e ↦ do perror "malloc"; ret 1 | done stack ↦ with_stack stack ]
