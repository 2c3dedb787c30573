-- ===== src/Examples/World.antt =====
-- A machine with 4096 mapped bytes: the file `m` with the bytes 1 2 3, user memory at 1000 that begins
-- with the path `m`, and a program's initial memory at 2000.
use mini_isolation_lab.Base.{
  ℕ, ◌+◌, ◌≤◌, ◌≡◌, inr, refl, true, false, arith, some, none, List, [], ◌∷◌, replicate, set, ltb,
  ◌==◌, if◌then◌else◌,
}
use mathlib.Core.Path.{subst}
use mathlib.Core.Option.{some-injective}
use mini_isolation_lab.Base.Words.{minus_one32}
use mini_isolation_lab.Machine.{Addr, Mem, KfsNode, World}
use mini_isolation_lab.Machine.Memory.{Room}
use mini_isolation_lab.Fs.{mode_file}
use mini_isolation_lab.Fs.Catalog.{Entry, IsMounted}
use mini_isolation_lab.Console.Output.{IsResponsive}
use mini_isolation_lab.Syscall.{Ktask, KtaskFile, KsyscallError, no_file}
use mini_isolation_lab.Syscall.State.{IsSound, IsBacked, IsOpenFile}
use mini_isolation_lab.Syscall.Files.{opened_file}
use mini_isolation_lab.User.{KuserProcess, KuserError, memory_size, max_fd_slots}
use mini_isolation_lab.User.Ranges.{IsHome}
use mini_isolation_lab.User.Run.Keeps.{IsRunnable}

abbrev content : Addr → ℕ
content a =
    if a == 10
    then b'm'
    else if a == 20
    then 1
    else if a == 21
    then 2
    else if a == 22
    then 3
    else if a == 1000
    then b'm'
    else 0

abbrev pub bytes : Mem
bytes a = if ltb a 4096 then some (content a) else none

abbrev pub motd : KfsNode
motd = record { path = 10; bytes = 20; size = 3; mode = mode_file }

abbrev pub catalog : List Entry
catalog = record { node = motd; name = b'm' ∷ [] } ∷ []

-- The serial port is always ready.
abbrev pub machine : World
machine = record {
  mem = bytes;
  trace = [];
  input = λ n port. 0x20;
  reads = 0;
  fuel = 16;
  mounted_nodes = some (motd ∷ []);
  mounted_count = 1;
}

pub bytes-Room : (p n : ℕ) → p + n ≤ 4096 → Room bytes p n
bytes-Room p n h a l u = let inside : ltb a 4096 ≡ true = ground arith in rw inside refl

pub machine-IsMounted : IsMounted machine catalog
machine-IsMounted = record {
  nodes = refl;
  count = refl;
  named = (λ v. ((refl, omega arith, refl), omega arith), tt);
}

pub machine-IsResponsive : IsResponsive machine
machine-IsResponsive n = (0, omega arith, refl)

pub motd-IsBacked : IsBacked bytes 1000 memory_size motd
motd-IsBacked = record {
  bytes = λ v. bytes-Room 20 3 (omega arith);
  apart = λ v a l u. inr (omega arith);
  size = omega arith;
  mode = omega arith;
}

-- Descriptor 3 is open on the file, past its first byte.
abbrev pub files : List KtaskFile
files = set (replicate 8 no_file) 3 (record (opened_file motd) { offset = 1 })

abbrev pub task : Ktask
task = record {
  pid = 1;
  user_base = 1000;
  user_len = memory_size;
  write_byte = 7;
  write_ctx = 9;
  files = files;
}

no_file-IsOpenFile : IsOpenFile bytes 1000 memory_size no_file
no_file-IsOpenFile = record { node = λ n e. cc; offset = omega arith }

pub task-IsSound : IsSound catalog task machine
task-IsSound =
    let f = no_file-IsOpenFile in
    let o : IsOpenFile bytes 1000 memory_size (record (opened_file motd) { offset = 1 }) = record {
      node = λ n e. subst (IsBacked bytes 1000 memory_size) (some-injective motd n e) motd-IsBacked;
      offset = omega arith;
    } in
    record {
      mounted = machine-IsMounted;
      placed = (record { backed = motd-IsBacked; name_apart = λ v a l u. inr (omega arith) }, tt);
      room = bytes-Room 1000 memory_size (omega arith);
      based = omega arith;
      files = (f, (f, (f, (o, (f, (f, (f, (f, tt))))))));
      table = refl;
      can_write = λ e. absurd (omega (arith, e));
    }

abbrev pub process : KuserProcess
process = record {
  task = task;
  memory = 1000;
  fd_slots = replicate max_fd_slots minus_one32;
  exited = false;
  exit_status = 0;
  last_error = KuserError.success;
  last_syscall_error = KsyscallError.success;
}

pub process-IsHome : IsHome process
process-IsHome = record { base = refl; size = refl; no_wrap = omega arith }

pub process-IsRunnable : IsRunnable catalog process machine
process-IsRunnable = record { sound = task-IsSound; home = process-IsHome; slots = refl }
