-- ===== src/Basics/Syscalls.antt =====
-- src/part-01-syscalls/syscall_write.c.
use mini_isolation_lab.Base.{ℕ}
use mini_isolation_lab.Host.{Text, Call, done, failed, Prog, ret, ◌>>=◌, ◌>>◌, sys, perror}
use mini_isolation_lab.Host.Format.{chars}

abbrev pub message : Text
message = chars "part 01: hello through the write syscall\n"

unfoldable pub main : Prog ℕ
main = do
  written ← sys (Call.write_fd 1 message)
  elim written [ failed e ↦ do perror "syscall write"; ret 1 | done n ↦ ret 0 ]
