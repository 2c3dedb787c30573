-- ===== src/Basics/Returned.antt =====
-- How the first five programs end, whatever the operating system answers.
use mini_isolation_lab.Base.{
  ℕ, ◌≡◌, refl, Bool, true, false, Option, none, some, List, [], ◌∷◌, ◌==◌, if◌then◌else◌,
}
use mini_isolation_lab.Host.{Text, Event, called, entered, Call, done, failed}
use mini_isolation_lab.Host.Format.{chars}
use mini_isolation_lab.Host.Paths.{End, Stop, Always, on_answer}
use mini_isolation_lab.Host.Resources.{without, is_map, alone, alone-map}
use mini_isolation_lab.Basics.Syscalls
use mini_isolation_lab.Basics.Memory
use mini_isolation_lab.Basics.Processes
use mini_isolation_lab.Basics.Namespaces
use mini_isolation_lab.Basics.Rootfs

-- The blocks and the mappings; whether a call that the programs check has failed; the root, and the directory below
-- it; and the command that was started.
pub record Seen : Type 0 where
  pub blocks : List ℕ
  pub maps : List (ℕ × ℕ)
  pub failure : Bool
  pub root : Option Text
  pub inside : Option Text
  pub command : Option (Text × List Text)

-- The calls whose failure the programs do not look at.
abbrev pub is_checked : Call → Bool
is_checked (Call.waitpid pid) = false
is_checked (Call.munmap addr size) = false
is_checked (Call.memcpy addr t) = false
is_checked (Call.free p) = false
is_checked Call.sysconf_pagesize = false
is_checked Call.getpid = false
is_checked Call.getppid = false
is_checked _ = true

abbrev pub step : Seen → Event → Seen
step m (called (Call.free p) a) = record m { blocks = without (λ y. p == y) m.blocks }
step m (called (Call.munmap addr size) a) = record m { maps = without (is_map (addr, size)) m.maps }
step m (called (Call.malloc size) (done p)) = record m { blocks = p ∷ m.blocks }
step m (called (Call.mmap size prot flags fd) (done addr)) = record m {
  maps = (addr, size) ∷ m.maps;
}
step m (called (Call.chroot path) (done n)) = record m { root = some path; inside = none }
step m (called (Call.chdir path) (done n)) = record m { inside = some path }
step m (called (Call.waitpid pid) a) = m
step m (called (Call.memcpy addr t) a) = m
step m (called Call.sysconf_pagesize a) = m
step m (called Call.getpid a) = m
step m (called Call.getppid a) = m
step m (called c (failed e)) = record m { failure = true }
step m (entered (Call.execvp file argv)) = record m { command = some (file, argv) }
step m _ = m

abbrev pub nothing : Seen
nothing = record {
  blocks = [];
  maps = [];
  failure = false;
  root = none;
  inside = none;
  command = none;
}

-- Returned with nothing kept, and with 1 exactly if a call that is checked has failed.
abbrev pub Returned : Seen → ℕ → End ℕ → Type 0
Returned m e (End.returned n) = (m.blocks ≡ []) × (m.maps ≡ []) × (n ≡ (if m.failure then 1 else 0))
Returned m e (End.stopped x) = ⊥

-- The command runs in the directory `/` of the root, or the value is 1.
abbrev pub Entered : Text → Text → List Text → Seen → ℕ → End ℕ → Type 0
Entered rootfs command argv m e (End.returned n) = n ≡ 1
Entered rootfs command argv m e (End.stopped Stop.gone) =
    (m.root ≡ some rootfs) × (m.inside ≡ some (chars "/")) × (m.command ≡ some (command, argv))
Entered rootfs command argv m e _ = ⊥

syscalls-Returned : (e : ℕ) → Always step Returned Syscalls.main nothing e
unfolding Syscalls.main
syscalls-Returned e = on_answer _ (λ x. (refl, refl, refl)) (λ n. (refl, refl, refl))

memory-Returned : (e : ℕ) → Always step Returned Memory.main nothing e
unfolding Memory.main Memory.with_heap
memory-Returned e =
    on_answer _ (λ x. (refl, refl, refl))
      (λ heap. λ copied size.
        on_answer _ (λ x. λ freed. (alone heap, refl, refl))
          (λ mapped.
            λ copied' u freed. (alone heap, alone-map (mapped, Memory.size_of_page size), refl)))

processes-Returned : (e : ℕ) → Always step Returned Processes.main nothing e
unfolding Processes.main Processes.with_stack
processes-Returned e =
    on_answer _ (λ x. (refl, refl, refl))
      (λ stack.
        on_answer _ (λ x. λ freed. (alone stack, refl, refl))
          (λ child. λ pid w freed. (alone stack, refl, refl)))

namespaces-Returned : (e : ℕ) → Always step Returned Namespaces.main nothing e
unfolding Namespaces.main Namespaces.with_stack Namespaces.with_child
namespaces-Returned e =
    on_answer _ (λ x. (refl, refl, refl))
      (λ name.
        on_answer _ (λ x. (refl, refl, refl))
          (λ stack.
            on_answer _ (λ x. λ freed. (alone stack, refl, refl))
              (λ child. λ w.
                on_answer _ (λ x. λ freed. (alone stack, refl, refl))
                  (λ name'. λ freed. (alone stack, refl, refl)))))

rootfs-Entered :
    (program rootfs command : Text) (args : List Text) (e : ℕ)
    → Always step
        (Entered rootfs command (command ∷ args))
        (Rootfs.main program (rootfs ∷ command ∷ args))
        nothing
        e
unfolding Rootfs.main Rootfs.enter
rootfs-Entered program rootfs command args e =
    on_answer _ (λ x. refl)
      (λ n.
        on_answer _ (λ x. refl) (λ k. ((refl, refl, refl), on_answer _ (λ x. refl) (λ y. refl))))

-- The first five Linux programs, whatever the operating system answers. The mains of
-- syscall_write.c, mmap_memory.c, clone_process.c and uts_namespace.c return, with every block and
-- mapping given back, and with 1 if a call whose failure they look at has failed and 0 otherwise.
-- `main` of chroot_exec.c with a root and a command starts this command in the directory `/` of
-- that root, or returns 1.
pub mains-Returned :
    (program rootfs command : Text) (args : List Text) (e : ℕ)
    → Always step Returned Syscalls.main nothing e
      × Always step Returned Memory.main nothing e
      × Always step Returned Processes.main nothing e
      × Always step Returned Namespaces.main nothing e
      × Always step
          (Entered rootfs command (command ∷ args))
          (Rootfs.main program (rootfs ∷ command ∷ args))
          nothing
          e
mains-Returned program rootfs command args e = (
  syscalls-Returned e,
  memory-Returned e,
  processes-Returned e,
  namespaces-Returned e,
  rootfs-Entered program rootfs command args e,
)
