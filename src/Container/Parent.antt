-- ===== src/Container/Parent.antt =====
-- What the parent of mini_container.c gives back, and its value.
use Prim.Native.String.{String}
use mini_isolation_lab.Base.{
  Bool, false, ◌+◌, ◌++◌, length-append, arith, ℕ, ◌≡◌, ◌⊎◌, ap, inl, inr, refl, Bool-cases,
  ==_refl, Option, none, some, List, [], ◌∷◌, length, ◌==◌, ◌!=◌, if◌then◌else◌,
}
use mini_isolation_lab.Host.{
  Text, Event, called, Flag, exited, signaled, WaitStatus, Call, done, int_value, enoent, eexist,
}
use mini_isolation_lab.Host.Format.{chars, decimal, take-whole, decimal-le}
use mini_isolation_lab.Host.Paths.{
  End, Stop, errno_after, Always, Quiet, Quiet-then, on_answer, on_bool,
}
use mini_isolation_lab.Host.Resources.{without, alone}
use mini_isolation_lab.Container.{
  die, warn_errno, write_file, cgroup_dir, cgroup_file, write_or_warn, limit_cgroup,
  try_apply_cgroup_limits, exit_status, collect, parent_run, spawn, usage, main,
}

-- The open files and the stacks; the child, the cgroups whose creation and whose removal was tried, and the child's
-- status.
pub record Seen : Type 0 where
  pub fds : List ℕ
  pub stacks : List ℕ
  pub child : Option ℕ
  pub created : List Text
  pub removed : List Text
  pub status : Option WaitStatus

abbrev is_child : Option ℕ → ℕ → Bool
is_child none pid = false
is_child (some child) pid = child == pid

abbrev pub step : Seen → Event → Seen
step m (called Call.pipe (done (r, w))) = record m { fds = r ∷ w ∷ m.fds }
step m (called (Call.open_file path flags) (done fd)) = record m { fds = fd ∷ m.fds }
step m (called (Call.close_fd fd) a) = record m { fds = without (λ y. fd == y) m.fds }
step m (called (Call.malloc size) (done p)) = record m { stacks = p ∷ m.stacks }
step m (called (Call.free p) a) = record m { stacks = without (λ y. p == y) m.stacks }
step m
      (called
        (Call.clone (
          Flag.clone_newuts ∷ Flag.clone_newpid ∷ Flag.clone_newns ∷ Flag.clone_newipc
          ∷ Flag.clone_newnet ∷ Flag.sigchld ∷ []))
        (done pid)) =
    record m { child = some pid }
step m (called (Call.mkdir path mode) a) = record m { created = path ∷ m.created }
step m (called (Call.rmdir path) a) = record m { removed = path ∷ m.removed }
step m (called (Call.waitpid pid) (done (p, s))) =
    if is_child m.child pid then record m { status = some s } else m
step m _ = m

abbrev pub nothing : Seen
nothing = record { fds = []; stacks = []; child = none; created = []; removed = []; status = none }

-- The cgroup of a child.
abbrev pub own_dir : ℕ → Text
own_dir child = chars "/sys/fs/cgroup/mini-container-" ++ decimal child

-- What `main` makes of the end of the child.
abbrev pub Passed : WaitStatus → ℕ → Type 0
Passed (exited code) n = n ≡ code
Passed (signaled sig) n = n ≡ 128 + sig
Passed (WaitStatus.other_status s) n = n ≡ 1

-- The child, cloned into its namespaces, was waited for and its status is the value; the pipe is closed and the stack is free; and the directory whose
-- creation was tried, one, is the one whose removal was tried, the child's.
abbrev pub CleanedUp : Seen → ℕ → Type 0
CleanedUp m n =
    (m.fds ≡ [])
    × (m.stacks ≡ [])
    × ((child : ℕ) × (m.child ≡ some child)
        × (m.created ≡ own_dir child ∷ [])
        × (m.removed ≡ own_dir child ∷ []))
    × ((status : WaitStatus) × (m.status ≡ some status) × Passed status n)

-- How `main` may end.
abbrev pub Collected : Seen → ℕ → End ℕ → Type 0
Collected m e (End.returned n) = CleanedUp m n ⊎ ((m ≡ nothing) × (n ≡ 1))
Collected m e (End.stopped (Stop.exits n)) = n ≡ 1
Collected m e _ = ⊥

-- The path fits into its buffer.
cgroup_dir-whole : (child : ℕ) → cgroup_dir child ≡ own_dir child
cgroup_dir-whole child = take-whole 255 (own_dir child) (
    omega (
      arith,
      length-append (chars "/sys/fs/cgroup/mini-container-") (decimal child),
      decimal-le child,
    ))

exit_status-Passed : (status : WaitStatus) → Passed status (exit_status status)
exit_status-Passed (exited code) = refl
exit_status-Passed (signaled sig) = refl
exit_status-Passed (WaitStatus.other_status s) = refl

without-fd : (fd : ℕ) (m : Seen) → record m { fds = without (λ y. fd == y) (fd ∷ m.fds) } ≡ m
without-fd fd m =
    ap (λ b. record m { fds = if b then m.fds else fd ∷ without (λ y. fd == y) m.fds }) (==_refl fd)

write_file-Quiet :
    (path value : Text) (m : Seen) (e : ℕ) → Always step (Quiet step m) (write_file path value) m e
unfolding write_file
write_file-Quiet path value m e =
    on_answer _ (λ x. refl)
      (λ fd. λ written. elim (Bool-cases (int_value written == length value)) [
        | inl whole ↦ rw (whole, Always) (λ closed. without-fd fd m)
        | inr short ↦ rw (short, Always) (λ closed. without-fd fd m)
      ])

write_or_warn-Quiet :
    (path value : Text) (msg : String) (m : Seen) (e : ℕ)
    → Always step (Quiet step m) (write_or_warn path value msg) m e
unfolding write_or_warn warn_errno
write_or_warn-Quiet path value msg m e =
    Quiet-then step (Quiet step m) (write_file path value) _ m m e (write_file-Quiet path value m e)
      (on_bool _ (λ x. refl) (λ x. refl))

limit_cgroup-Quiet :
    (dir : Text) (child : ℕ) (m : Seen) (e : ℕ)
    → Always step (Quiet step m) (limit_cgroup dir child) m e
unfolding limit_cgroup
limit_cgroup-Quiet dir child m e =
    Quiet-then step (Quiet step m)
      (write_or_warn (cgroup_file dir "/pids.max") (chars "64\n") "could not set pids.max") _ m m e
      (write_or_warn-Quiet _ _ _ m e)
      (λ u x.
        Quiet-then step (Quiet step m)
          (write_or_warn (cgroup_file dir "/memory.max") (chars "134217728\n")
            "could not set memory.max")
          _ m m x (write_or_warn-Quiet _ _ _ m x) (λ u' y. write_or_warn-Quiet _ _ _ m y))

-- The cgroup's creation is tried.
abbrev tried : Seen → ℕ → Seen
tried m child = record m { created = cgroup_dir child ∷ m.created }

limits-tried :
    (child : ℕ) (m : Seen) (e : ℕ)
    → Always step (Quiet step (tried m child)) (try_apply_cgroup_limits child) m e
unfolding try_apply_cgroup_limits warn_errno
limits-tried child m e =
    on_answer _
      (λ x. elim (Bool-cases (x != eexist)) [
        | inl bad ↦ rw (bad, Always) refl
        | inr there ↦
            rw (there, Always) (limit_cgroup-Quiet (cgroup_dir child) child (tried m child) x)
      ])
      (λ n. limit_cgroup-Quiet (cgroup_dir child) child (tried m child) e)

-- With the pipe closed and the cgroup tried.
abbrev waiting : (stack child : ℕ) → List ℕ → Seen
waiting stack child fds = record nothing {
  fds = fds;
  stacks = stack ∷ [];
  child = some child;
  created = cgroup_dir child ∷ [];
}

collect-Collected :
    (stack child w : ℕ) (e : ℕ)
    → Always step Collected
        (collect stack child)
        (waiting stack child (without (λ y. w == y) (w ∷ [])))
        e
unfolding collect die warn_errno
collect-Collected stack child w e =
    on_answer _ (λ x. refl)
      (λ a. rw (==_refl child) (
        on_answer _
          (λ x. elim (Bool-cases (x != enoent)) [
            | inl bad ↦ rw (bad, Always) (λ freed. inl (cleaned a.1))
            | inr gone ↦ rw (gone, Always) (λ freed. inl (cleaned a.1))
          ])
          (λ n. λ freed. inl (cleaned a.1))))
  where
    one_dir : cgroup_dir child ∷ [] ≡ own_dir child ∷ []
    one_dir = ap (λ d. d ∷ []) (cgroup_dir-whole child)

    cleaned :
        (status : WaitStatus)
        → CleanedUp
            (record nothing {
              fds = without (λ y. w == y) (w ∷ []);
              stacks = without (λ y. stack == y) (stack ∷ []);
              child = some child;
              created = cgroup_dir child ∷ [];
              removed = cgroup_dir child ∷ [];
              status = some status;
            })
            (exit_status status)
    cleaned status = (
      alone w,
      alone stack,
      (child, refl, one_dir, one_dir),
      (status, refl, exit_status-Passed status),
    )

parent_run-Collected :
    (r w stack child e : ℕ)
    → Always step Collected
        (parent_run r w stack child)
        (record nothing { fds = r ∷ w ∷ []; stacks = stack ∷ []; child = some child })
        e
unfolding parent_run die
parent_run-Collected r w stack child e = λ closed. rw (==_refl r) (
    Quiet-then step Collected (try_apply_cgroup_limits child) _
      (record nothing { fds = w ∷ []; stacks = stack ∷ []; child = some child })
      (waiting stack child (w ∷ [])) (errno_after e closed)
      (limits-tried child (record nothing { fds = w ∷ []; stacks = stack ∷ []; child = some child })
        (errno_after e closed))
      (λ u x. λ sent. elim (Bool-cases (int_value sent != 1)) [
        | inl failure ↦ rw (failure, Always) refl
        | inr fine ↦ rw (fine, Always) (λ c. collect-Collected stack child w _)
      ]))

-- `main` of mini_container.c in the parent, whatever the kernel answers, ends with `exit(1)`,
-- returns 1 before it has opened, created or cloned anything, or returns after it has waited for
-- the child that it has cloned into its five namespaces: the exit code of the child, 128 and its
-- signal, or 1 for another end of it. In that case the pipe is closed, the stack is free, and the
-- only cgroup directory whose creation was tried, and the only one whose removal was tried, is
-- /sys/fs/cgroup/mini-container- with the child's number.
pub main-Collected :
    (program : Text) (args : List Text) (e : ℕ)
    → Always step Collected (main program args) nothing e
unfolding main spawn usage die
main-Collected program (rootfs ∷ command ∷ args) e =
    on_answer _ (λ x. refl)
      (λ stack.
        on_answer _ (λ x. refl)
          (λ ends.
            on_answer _ (λ x. refl) (λ child. parent_run-Collected ends.0 ends.1 stack child e)))
main-Collected program (rootfs ∷ []) e = inr (refl, refl)
main-Collected program [] e = inr (refl, refl)
