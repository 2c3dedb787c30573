-- ===== src/Basics/Rootfs.antt =====
-- src/part-05-rootfs/chroot_exec.c.
use mini_isolation_lab.Base.{ℕ, List, [], ◌∷◌}
use mini_isolation_lab.Host.{
  Text, lit, text, Call, done, failed, Prog, last, ret, ◌>>=◌, ◌>>◌, sys, fprintf, perror,
}
use mini_isolation_lab.Host.Format.{chars}

unfoldable pub usage : Text → Prog ℕ
usage program = do
  fprintf (lit "usage: sudo " ∷ text program ∷ lit " ROOTFS COMMAND [ARG...]\n" ∷ [])
  fprintf (lit "example: sudo " ∷ text program ∷ lit " ./rootfs /bin/sh\n" ∷ [])
  ret 1

-- `main` with the root, the command and the arguments from the command on.
unfoldable pub enter : Text → Text → List Text → Prog ℕ
enter rootfs command argv = do
  rooted ← sys (Call.chroot rootfs)
  elim rooted [
    | failed e ↦ do perror "chroot"; ret 1
    | done n ↦ do
      moved ← sys (Call.chdir (chars "/"))
      elim moved [
        | failed e ↦ do perror "chdir"; ret 1
        | done k ↦ last (Call.execvp command argv) (λ _. do perror "execvp"; ret 1)
      ]
  ]

-- The arguments are those after the program's name.
unfoldable pub main : Text → List Text → Prog ℕ
main program (rootfs ∷ command ∷ args) = enter rootfs command (command ∷ args)
main program _ = usage program
