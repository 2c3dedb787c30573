-- ===== src/Cgroup/Quiet.antt =====
-- What cgroup_limit.c does before and after the wait for the child, and the monitor of its cgroup.
use Prim.Native.String.{String}
use mini_isolation_lab.Base.{
  bytes_eq, false, ◌≡◌, ◌<◌, ◌^◌, ap, length-append, ◌≤◌, arith, ℕ, zero, ◌+◌, ◌++◌, inl, inr, refl,
  Bool-cases, Option, some, none, ◌==◌, ◌!=◌, ◌||◌, if◌then◌else◌, length, leb,
}
use mini_isolation_lab.Host.{
  Text, Answer, Event, called, Call, done, failed, WaitStatus, exited, eexist, enoent, eacces,
  eperm, erofs, ebusy,
}
use mini_isolation_lab.Host.Format.{
  take-whole, decimal-le, read_from, read_from-decimal, chars, decimal, take,
}
use mini_isolation_lab.Host.Paths.{on_answer, on_option, on_bool, Always, Quiet, Quiet-then}
use mini_isolation_lab.Cgroup.{
  write_file, write_filef, path_join, explain_cgroup_error, set_limit, cleanup_cgroup,
}

-- How often the cgroup's creation was refused, its removal tried, the child reaped after `exit(0)`, and how many
-- waits did not give the child, which is the last process forked; and how often another directory was to be created
-- or removed.
pub record Seen : Type 0 where
  pub child : ℕ
  pub refused : ℕ
  pub removals : ℕ
  pub clean : ℕ
  pub missed : ℕ
  pub strays : ℕ

abbrev pub after_wait : Seen → Option WaitStatus → Seen
after_wait m none = record m { missed = m.missed + 1 }
after_wait m (some (exited zero)) = record m { clean = m.clean + 1 }
after_wait m (some _) = m

-- The status of the child in what a wait gives.
abbrev pub given : ℕ → Answer (ℕ × WaitStatus) → Option WaitStatus
given child (failed e) = none
given child (done (pid, status)) = if pid == child then some status else none

-- The directory of the cgroup.
abbrev pub own_dir : Text
own_dir = chars "/sys/fs/cgroup/part-06-cgroup-demo"

-- A change that is for the cgroup only.
abbrev pub on_own : Text → Seen → Seen → Seen
on_own path m m' = if bytes_eq path own_dir then m' else record m { strays = m.strays + 1 }

abbrev pub step : Seen → Event → Seen
step m (called (Call.mkdir path mode) (failed e)) =
    on_own path m (if e != eexist then record m { refused = m.refused + 1 } else m)
step m (called (Call.mkdir path mode) (done n)) = on_own path m m
step m (called (Call.rmdir path) a) = on_own path m (record m { removals = m.removals + 1 })
step m (called Call.fork (done pid)) = record m { child = pid }
step m (called (Call.waitpid pid) a) = after_wait m (given m.child a)
step m _ = m

pub write_file-Quiet :
    (path value : Text) (m : Seen) (e : ℕ) → Always step (Quiet step m) (write_file path value) m e
unfolding write_file
write_file-Quiet path value m e =
    on_answer _ (λ x. refl)
      (λ fd.
        on_answer _ (λ x. λ closed. refl)
          (λ n. elim (Bool-cases (n == length value)) [
            | inl whole ↦ rw (whole, Always) (λ closed. refl)
            | inr short ↦ rw (short, Always) (λ closed. refl)
          ]))

-- A number is written as one line, without an error from its length, and the line reads back as the number.
write_filef-line :
    (path : Text) (value : ℕ)
    → value < 2 ^ 64
    → (line : Text) × (write_filef path value ≡ write_file path (line ++ chars "\n"))
      × (read_from 0 line ≡ value)
unfolding write_filef
write_filef-line path value small =
    let line : Text = decimal value in
    let short : length (line ++ chars "\n") ≤ 21 =
      omega (arith, length-append line (chars "\n"), decimal-le value) in
    let fits : leb 64 (length (line ++ chars "\n")) ≡ false = ground (arith, short) in
    let whole : take 63 (line ++ chars "\n") ≡ line ++ chars "\n" =
      take-whole 63 (line ++ chars "\n") (omega (arith, short)) in
    (line, rw (fits) (ap (write_file path) whole), read_from-decimal value small)

pub write_filef-Quiet :
    (path : Text) (value : ℕ) (m : Seen) (e : ℕ)
    → Always step (Quiet step m) (write_filef path value) m e
unfolding write_filef
write_filef-Quiet path value m e =
    elim (Bool-cases (leb 64 (length (decimal value ++ chars "\n")))) [
      | inl long ↦ rw (long, Always) refl
      | inr fits ↦
          rw (fits, Always) (write_file-Quiet path (take 63 (decimal value ++ chars "\n")) m e)
    ]

pub explain-Quiet :
    (action : String) (path : Text) (m : Seen) (e : ℕ)
    → Always step (Quiet step m) (explain_cgroup_error action path) m e
unfolding explain_cgroup_error
explain-Quiet action path m e = elim (Bool-cases ((e == eacces) || (e == eperm) || (e == erofs))) [
  | inl a ↦ rw (a, Always) refl
  | inr a ↦ elim (Bool-cases (e == enoent)) [
    | inl b ↦ rw (a, b, Always) refl
    | inr b ↦ elim (Bool-cases (e == ebusy)) [
      | inl c ↦ rw (a, b, c, Always) refl
      | inr c ↦ rw (a, b, c, Always) refl
    ]
  ]
]

pub path_join-Quiet :
    (size : ℕ) (dir file : Text) (m : Seen) (e : ℕ)
    → Always step (Quiet step m) (path_join size dir file) m e
unfolding path_join
path_join-Quiet size dir file m e =
    elim (Bool-cases (leb size (length (dir ++ (chars "/" ++ file))))) [
      | inl long ↦ rw (long, Always) refl
      | inr fits ↦ rw (fits, Always) refl
    ]

pub set_limit-Quiet :
    (dir file value : Text) (m : Seen) (e : ℕ)
    → Always step (Quiet step m) (set_limit dir file value) m e
unfolding set_limit
set_limit-Quiet dir file value m e =
    Quiet-then step (Quiet step m) (path_join 256 dir file) _ m m e
      (path_join-Quiet 256 dir file m e)
      (on_option _ (λ e'. refl)
        (λ path e'.
          Quiet-then step (Quiet step m) (write_file path value) _ m m e'
            (write_file-Quiet path value m e')
            (on_bool _ (λ x. refl)
              (λ x.
                Quiet-then step (Quiet step m) (explain_cgroup_error "write" path) _ m m x
                  (explain-Quiet "write" path m x) (λ u y. refl)))))

-- The removal of the cgroup is tried once, and nothing else is done.
abbrev pub removed : Seen → Seen
removed m = record m { removals = m.removals + 1 }

pub cleanup-removed :
    (m : Seen) (e : ℕ) → Always step (Quiet step (removed m)) (cleanup_cgroup own_dir) m e
unfolding cleanup_cgroup
cleanup-removed m e =
    on_answer _
      (λ x. elim (Bool-cases (x == enoent)) [
        | inl gone ↦ rw (gone, Always) refl
        | inr stays ↦
            rw (stays, Always)
              (Quiet-then step (Quiet step (removed m)) (explain_cgroup_error "remove" own_dir) _
                (removed m) (removed m) x (explain-Quiet "remove" own_dir (removed m) x)
                (λ u y. refl))
      ])
      (λ n. refl)
