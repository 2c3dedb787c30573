-- ===== src/Container/Child.antt =====
-- What the child of mini_container.c has done when the command starts.
use mini_isolation_lab.Base.{
  ℕ, ◌≡◌, inl, inr, refl, Bool-cases, Option, none, some, List, [], ◌∷◌, ◌==◌, ◌!=◌, if◌then◌else◌,
}
use mini_isolation_lab.Host.{
  Text, Event, called, entered, Flag, Call, done, failed, sys, ◌>>=◌, ◌>>◌, eexist,
}
use mini_isolation_lab.Host.Format.{chars}
use mini_isolation_lab.Host.Paths.{End, Stop, Always, on_answer}
use mini_isolation_lab.Container.{
  ChildConfig, die, wait_for_parent, must, start_command, enter_root, child_main,
}

-- The calls that have succeeded, the last one first, and the process's command once it has started one. A
-- directory that is already there counts as made; `close`, `getpid` and a read of nothing are not kept.
pub record Seen : Type 0 where
  pub trail : List Call
  pub command : Option (Text × List Text)

abbrev pub did : Seen → Call → Seen
did m c = record m { trail = c ∷ m.trail }

abbrev pub step : Seen → Event → Seen
step m (called (Call.read_fd fd k) (done n)) = if n == 0 then m else did m (Call.read_fd fd k)
step m (called (Call.close_fd fd) a) = m
step m (called Call.getpid a) = m
step m (called (Call.mkdir path mode) (failed e)) =
    if e != eexist then m else did m (Call.mkdir path mode)
step m (called c (done n)) = did m c
step m (called c (failed e)) = m
step m (entered (Call.execvp file argv)) = record m { command = some (file, argv) }
step m _ = m

abbrev pub before_release : Seen
before_release = record { trail = []; command = none }

-- The isolation, the last step first: the byte of the parent, the host name, the private mounts, the new root and its
-- directory, and the mount of /proc.
abbrev pub isolation : ChildConfig → List Call
isolation config =
    Call.mount (some (chars "proc")) (some (chars "/proc")) (some (chars "proc")) [] (some [])
    ∷ Call.mkdir (chars "/proc") 0x16d
    ∷ Call.chdir (chars "/")
    ∷ Call.chroot config.rootfs
    ∷ Call.mount none (some (chars "/")) none (Flag.ms_rec ∷ Flag.ms_private ∷ []) none
    ∷ Call.sethostname (chars "mini-container")
    ∷ Call.read_fd config.sync_fd 1
    ∷ []

-- The child never returns: the command of the configuration runs after these calls and no other; or the child has
-- ended with `exit(1)` and has started nothing, but for a command that could not be started.
abbrev pub Isolated : ChildConfig → Seen → ℕ → End ℕ → Type 0
Isolated config m e (End.stopped Stop.gone) =
    (m.trail ≡ isolation config) × (m.command ≡ some (config.command, config.argv))
Isolated config m e (End.stopped (Stop.exits n)) = (n ≡ 1) × (m.command ≡ none)
Isolated config m e _ = ⊥

-- After this many of the calls.
abbrev after : List Call → Seen
after calls = record { trail = calls; command = none }

abbrev released : ChildConfig → List Call
released config = Call.read_fd config.sync_fd 1 ∷ []

abbrev private : ChildConfig → List Call
private config =
    Call.mount none (some (chars "/")) none (Flag.ms_rec ∷ Flag.ms_private ∷ []) none
    ∷ Call.sethostname (chars "mini-container")
    ∷ released config

abbrev in_root : ChildConfig → List Call
in_root config =
    Call.mkdir (chars "/proc") 0x16d
    ∷ Call.chdir (chars "/")
    ∷ Call.chroot config.rootfs
    ∷ private config

start_command-Isolated :
    (config : ChildConfig) (e : ℕ)
    → Always step (Isolated config) (start_command config) (after (in_root config)) e
unfolding start_command must die
start_command-Isolated config e =
    on_answer _ (λ x. (refl, refl))
      (λ n.
        on_answer _ (λ x. ((refl, refl), on_answer _ (λ y. (refl, refl)) (λ y. (refl, refl))))
          (λ pid. ((refl, refl), on_answer _ (λ y. (refl, refl)) (λ y. (refl, refl)))))

enter_root-Isolated :
    (config : ChildConfig) (e : ℕ)
    → Always step (Isolated config) (enter_root config) (after (private config)) e
unfolding enter_root must die
enter_root-Isolated config e =
    on_answer _ (λ x. (refl, refl))
      (λ r.
        on_answer _ (λ x. (refl, refl))
          (λ d.
            on_answer _
              (λ x. elim (Bool-cases (x != eexist)) [
                | inl bad ↦ rw (bad, Always) (refl, refl)
                | inr there ↦ rw (there, Always) (start_command-Isolated config x)
              ])
              (λ k. start_command-Isolated config e)))

-- `child_main` after the token is read.
named-Isolated :
    (config : ChildConfig) (e : ℕ)
    → Always step
        (Isolated config)
        (sys (Call.sethostname (chars "mini-container")) >>= (λ named.
          must named "sethostname"
          >> (sys
                (Call.mount none (some (chars "/")) none (Flag.ms_rec ∷ Flag.ms_private ∷ []) none)
              >>= (λ private. must private "make mounts private" >> enter_root config))))
        (after (released config))
        e
unfolding must die
named-Isolated config e =
    on_answer _ (λ x. (refl, refl))
      (λ h. on_answer _ (λ x. (refl, refl)) (λ p. enter_root-Isolated config e))

-- `child_main` of mini_container.c never returns, whatever the kernel answers. It either ends in
-- the start of the configuration's command with its arguments, and then exactly these calls have
-- succeeded, in this order, but for `close`, `getpid` and a directory that was there: a read of
-- one byte from the configuration's descriptor, the host name `mini-container`, the mounts made
-- private, the change to the configuration's root and to its directory `/`, the directory /proc,
-- and the mount of proc on it; or it ends with `exit(1)` and has started no command.
pub child_main-Isolated :
    (config : ChildConfig) (e : ℕ)
    → Always step (Isolated config) (child_main config) before_release e
unfolding child_main wait_for_parent must die
child_main-Isolated config e =
    on_answer _ (λ x. (refl, refl))
      (λ n. elim (Bool-cases (n == 0)) [
        | inl ended ↦ rw (ended, Always) (refl, refl)
        | inr token ↦
            rw (token, Always)
              (on_answer _ (λ y. named-Isolated config y) (λ y. named-Isolated config e))
      ])
