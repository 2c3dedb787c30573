-- ===== src/Basics/Namespaces.antt =====
-- src/part-04-namespaces/uts_namespace.c.
use mini_isolation_lab.Base.{ℕ, [], ◌∷◌, ◌*◌}
use mini_isolation_lab.Host.{
  lit, text, Flag, Call, done, failed, Prog, ret, ◌>>=◌, ◌>>◌, sys, do_call, printf, perror,
}
use mini_isolation_lab.Host.Format.{chars}

abbrev pub stack_size : ℕ
stack_size = 1024 * 1024

unfoldable pub child_main : Prog ℕ
child_main = do
  named ← sys (Call.sethostname (chars "part-04-namespace"))
  elim named [
    | failed e ↦ do perror "sethostname"; ret 1
    | done n ↦ do
      got ← sys Call.gethostname
      elim got [
        | failed e ↦ do perror "gethostname"; ret 1
        | done hostname ↦ do
          printf (lit "child sees hostname: " ∷ text hostname ∷ lit "\n" ∷ [])
          ret 0
      ]
  ]

-- `main` once the child, which runs `child_main` in a namespace of its own, has the stack.
unfoldable pub with_child : (stack child : ℕ) → Prog ℕ
with_child stack child = do
  do_call (Call.waitpid child)
  got ← sys Call.gethostname
  elim got [
    | failed e ↦ do perror "gethostname"; do_call (Call.free stack); ret 1
    | done hostname ↦ do
      printf (lit "parent still sees hostname: " ∷ text hostname ∷ lit "\n" ∷ [])
      do_call (Call.free stack)
      ret 0
  ]

unfoldable pub with_stack : ℕ → Prog ℕ
with_stack stack = do
  cloned ← sys (Call.clone (Flag.clone_newuts ∷ Flag.sigchld ∷ []))
  elim cloned [
    | failed e ↦ do perror "clone"; do_call (Call.free stack); ret 1
    | done child ↦ with_child stack child
  ]

unfoldable pub main : Prog ℕ
main = do
  got ← sys Call.gethostname
  elim got [
    | failed e ↦ do perror "gethostname"; ret 1
    | done hostname ↦ do
      printf (lit "parent sees hostname before clone: " ∷ text hostname ∷ lit "\n" ∷ [])
      space ← sys (Call.malloc stack_size)
      elim space [ failed e ↦ do perror "malloc"; ret 1 | done stack ↦ with_stack stack ]
  ]
