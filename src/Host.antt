-- ===== src/Host.antt =====
-- The Linux programs under src/: a program is the tree of the calls that it makes of the operating system,
-- with a branch for every answer, and of what it prints. The answers come from outside.
pub mod Format
pub mod Paths
pub mod Runs
pub mod Resources
use Prim.Native.String.{String}
use mini_isolation_lab.Base.Words.{minus_one32}
use mini_isolation_lab.Base.{
  ℕ, Bool, List, [], ◌∷◌, ◌++◌, Option, none, some, length, if◌then◌else◌, ltb,
}

abbrev pub Text : Type 0
Text = List ℕ

-- What `printf` and `fprintf` put together: literals, texts (`%s`), numbers in decimal and in hexadecimal,
-- and the texts of
-- `strerror` and `strsignal`.
pub data Piece : Type 0 where
  lit : String → Piece
  text : Text → Piece
  number hex error_text signal_text : ℕ → Piece

-- The flags that the programs pass, by their names.
pub data Flag : Type 0 where
  o_wronly o_rdwr o_cloexec : Flag
  clone_newuts clone_newpid clone_newns clone_newipc clone_newnet clone_newuser sigchld : Flag
  ms_rec ms_private : Flag
  prot_read prot_write map_private map_shared map_anonymous map_noreserve : Flag

-- What `waitpid` stores, as the macros of <sys/wait.h> read it.
pub data WaitStatus : Type 0 where
  exited signaled other_status : ℕ → WaitStatus

-- `struct kvm_userspace_memory_region`, without flags.
pub record Region : Type 0 where
  pub slot : ℕ
  pub guest_phys_addr : ℕ
  pub memory_size : ℕ
  pub userspace_addr : ℕ

-- The segment registers that the source sets; `rest` is the rest of `struct kvm_sregs`.
pub record Segment : Type 0 where
  pub base : ℕ
  pub selector : ℕ
  pub hidden : ℕ

pub record Sregs : Type 0 where
  pub cs : Segment
  pub ds : Segment
  pub es : Segment
  pub ss : Segment
  pub rest : ℕ

-- `struct kvm_regs`; the registers that are not named are zero.
pub record Regs : Type 0 where
  pub rflags : ℕ
  pub rip : ℕ
  pub rsp : ℕ

-- `struct kvm_run` after an exit; `bytes` are those from `io.data_offset` on.
pub record KvmRun : Type 0 where
  pub exit_reason : ℕ
  pub direction : ℕ
  pub size : ℕ
  pub port : ℕ
  pub count : ℕ
  pub bytes : ℕ → ℕ
  pub hardware_entry_failure_reason : ℕ
  pub suberror : ℕ

-- One half of the capability sets, a 32-bit word each.
pub record CapData : Type 0 where
  pub effective : ℕ
  pub permitted : ℕ
  pub inheritable : ℕ

-- The requests of `ioctl`.
pub data Request : Type 0 where
  get_api_version create_vm get_vcpu_mmap_size get_sregs run : Request
  check_extension create_vcpu : ℕ → Request
  set_user_memory_region : Region → Request
  set_sregs : Sregs → Request
  set_regs : Regs → Request

-- The calls with the arguments that matter; pointers that only the callee writes through are left out.
pub data Call : Type 0 where
  open_file : Text → List Flag → Call
  close_fd : ℕ → Call
  write_fd : ℕ → Text → Call
  read_fd : ℕ → ℕ → Call
  mkdir : Text → ℕ → Call
  rmdir chroot chdir sethostname : Text → Call
  gethostname fork pipe getpid getppid getuid getgid : Call
  clone : List Flag → Call
  waitpid malloc free fclose : ℕ → Call
  mount : (source target fstype : Option Text) → List Flag → Option Text → Call
  execvp : Text → List Text → Call
  set_no_new_privs set_seccomp_strict syscall_getpid : Call
  raw_icmp_socket capget sysconf_pagesize : Call
  capset : CapData × CapData → Call
  fopen : Text → Call
  getline : ℕ → Call
  fgets : (size file : ℕ) → Call
  ioctl : ℕ → Request → Call
  mmap : (size : ℕ) → List Flag → List Flag → Option ℕ → Call
  munmap : (addr size : ℕ) → Call
  memcpy : (addr : ℕ) → Text → Call

abbrev pub RequestReply : Request → Type 0
RequestReply run = KvmRun
RequestReply get_sregs = Sregs
RequestReply _ = ℕ

-- What a call gives back: mostly a number, 0 where that is all it can be.
abbrev pub Reply : Call → Type 0
Reply pipe = ℕ × ℕ
Reply (waitpid pid) = ℕ × WaitStatus
Reply (getline file) = Option Text
Reply (fgets size file) = Option Text
Reply gethostname = Text
Reply capget = CapData × CapData
Reply (ioctl fd request) = RequestReply request
Reply _ = ℕ

-- `failed` is the error return (-1, `MAP_FAILED` or `NULL`) with the value of `errno`.
pub data Answer (A : Type 0) : Type 0 where
  done : A → Answer A
  failed : ℕ → Answer A

-- The number that a call returns; C's -1 when it fails.
abbrev pub int_value : Answer ℕ → ℕ
int_value (done n) = n
int_value (failed e) = minus_one32

pub data Event : Type 0 where
  called : (c : Call) → Answer (Reply c) → Event
  -- A call that did not return.
  entered : Call → Event
  out err : List Piece → Event
  flushed : Event

-- `exit` is `exit()`, which flushes the standard output, and `exit_now` is `_exit()`, which does not; `last` is a
-- call that may not return, because it replaces the program or is the end of it.
pub data Prog (A : Type 0) : Type 0 where
  ret : A → Prog A
  exit exit_now : ℕ → Prog A
  call last : (c : Call) → (Answer (Reply c) → Prog A) → Prog A
  say : Event → Prog A → Prog A
  get_errno : (ℕ → Prog A) → Prog A
  set_errno : ℕ → Prog A → Prog A
  out_of_fuel : Prog A

module _ {A B : Type 0} where
  infixl 5 ◌>>=◌ ◌>>◌
  abbrev pub ◌>>=◌ : Prog A → (A → Prog B) → Prog B
  ret a >>= f = f a
  exit n >>= f = exit n
  exit_now n >>= f = exit_now n
  call c k >>= f = call c (λ a. k a >>= f)
  last c k >>= f = last c (λ a. k a >>= f)
  say e p >>= f = say e (p >>= f)
  get_errno k >>= f = get_errno (λ e. k e >>= f)
  set_errno e p >>= f = set_errno e (p >>= f)
  out_of_fuel >>= f = out_of_fuel

  abbrev pub ◌>>◌ : Prog A → Prog B → Prog B
  p >> q = p >>= (λ _. q)

abbrev pub sys : (c : Call) → Prog (Answer (Reply c))
sys c = call c (λ a. ret a)

-- A call whose answer is not looked at.
abbrev pub do_call : Call → Prog (Unit {0})
do_call c = call c (λ _. ret tt)

abbrev pub errno : Prog ℕ
errno = get_errno (λ e. ret e)

abbrev pub put_errno : ℕ → Prog (Unit {0})
put_errno e = set_errno e (ret tt)

abbrev pub printf : List Piece → Prog (Unit {0})
printf ps = say (Event.out ps) (ret tt)

abbrev pub fprintf : List Piece → Prog (Unit {0})
fprintf ps = say (Event.err ps) (ret tt)

abbrev pub fflush : Prog (Unit {0})
fflush = say Event.flushed (ret tt)

abbrev pub perror : String → Prog (Unit {0})
perror msg =
    get_errno (λ e. say (Event.err (lit msg ∷ lit ": " ∷ error_text e ∷ lit "\n" ∷ [])) (ret tt))

abbrev pub exit_success : ℕ
exit_success = 0

abbrev pub exit_failure : ℕ
exit_failure = 1

-- The numbers of Linux for the errors that the programs tell apart.
abbrev pub eperm : ℕ
eperm = 1

abbrev pub enoent : ℕ
enoent = 2

abbrev pub eintr : ℕ
eintr = 4

abbrev pub eio : ℕ
eio = 5

abbrev pub eacces : ℕ
eacces = 13

abbrev pub ebusy : ℕ
ebusy = 16

abbrev pub eexist : ℕ
eexist = 17

abbrev pub enodev : ℕ
enodev = 19

abbrev pub einval : ℕ
einval = 22

abbrev pub erofs : ℕ
erofs = 30

abbrev pub enametoolong : ℕ
enametoolong = 36
