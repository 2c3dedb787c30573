-- ===== src/Userns/Mapping.antt =====
-- What the parent of userns_map.c has written when it releases the child.
use mini_isolation_lab.Base.{
  ==_refl, ℕ, ◌≡◌, ◌⊎◌, inl, inr, refl, Bool, false, Bool-cases, Option, none, some, List, [], ◌∷◌,
  ◌==◌, ◌||◌, if◌then◌else◌,
}
use mini_isolation_lab.Host.{
  Text, Call, WaitStatus, exited, signaled, Prog, ◌>>=◌, ◌>>◌, int_value, sys, do_call, eperm,
  eacces, einval,
}
use mini_isolation_lab.Host.Format.{chars}
use mini_isolation_lab.Host.Paths.{
  End, Stop, errno_after, Always, Always-at, Always-then, Quiet, Quiet-then, on_answer,
}
use mini_isolation_lab.Userns.{
  is_whole, write_id_maps, explain_clone_userns_error, die, report, collect, parent_run, spawn,
  main,
}
use mini_isolation_lab.Userns.Entries.{
  Seen, step, unmapped, uid_written, gid_written, deny_written, Mapped, three-Mapped, two-Mapped,
}
use mini_isolation_lab.Userns.Maps.{closed, fresh, unavailable, Entered, write_id_maps-Entered}

-- The child has exited with 0.
abbrev pub succeeded : Option WaitStatus → Bool
succeeded (some (exited code)) = code == 0
succeeded _ = false

-- How `main` may end, or with `exit(1)`: 0 is returned only for a child that was released with both maps written and has exited with 0; without a release the
-- child's status was not asked for.
abbrev pub Reported : Seen → ℕ → End ℕ → Type 0
Reported m e (End.returned n) =
    (Mapped m × (n ≡ (if succeeded m.status then 0 else 1)))
    ⊎ ((n ≡ 1) × (m.released ≡ none) × (m.status ≡ none))
Reported m e (End.stopped (Stop.exits n)) = n ≡ 1
Reported m e _ = ⊥

-- The child's exit and the value of `main`, once the child is released with both maps.
report-Reported :
    (status : WaitStatus) (m : Seen) (e : ℕ)
    → Mapped m
    → Always step Reported (report status) (record m { status = some status }) e
unfolding report
report-Reported (exited code) m e maps = inl (maps, refl)
report-Reported (signaled n) m e maps = inl (maps, refl)
report-Reported (WaitStatus.other_status n) m e maps = inl (maps, refl)

collect-Reported :
    (stack : ℕ) (m : Seen) (e : ℕ) → Mapped m → Always step Reported (collect stack m.child) m e
unfolding collect die
collect-Reported stack m e maps =
    on_answer _ (λ x. refl) (λ a. rw (==_refl m.child) (λ freed. report-Reported a.1 m _ maps))

-- The program from the release of the child on.
abbrev release : (token_fd stack child : ℕ) → Prog ℕ
release token_fd stack child = do
  sent ← sys (Call.write_fd token_fd (chars "x"))
  if is_whole (chars "x") sent
      then (do do_call (Call.close_fd token_fd); collect stack child)
      else die "write sync pipe"

release-Reported :
    (stack : ℕ) (m : Seen) (entries : List (Text × Text)) (e : ℕ)
    → Mapped (record (closed m entries) { released = some entries })
    → Always step Reported (release m.pipe_end stack m.child) (closed m entries) e
unfolding die
release-Reported stack m entries e maps =
    on_answer _ (λ x. refl)
      (λ n. elim (Bool-cases (n == 1)) [
        | inl whole ↦
            rw (whole, ==_refl m.pipe_end, Always)
              (λ c.
                collect-Reported stack (record (closed m entries) { released = some entries }) _
                  maps)
        | inr short ↦ rw (short, Always) refl
      ])

parent_run-Reported :
    (uid gid ready_fd token_fd stack child e : ℕ)
    → Always step Reported
        (parent_run uid gid ready_fd token_fd stack child)
        (fresh uid gid token_fd child)
        e
unfolding parent_run die
parent_run-Reported uid gid ready_fd token_fd stack child e = λ c.
    let m : Seen = fresh uid gid token_fd child in
    Always-then step (Entered m) Reported (write_id_maps child uid gid)
      (λ u. release token_fd stack child) m (errno_after e c)
      (write_id_maps-Entered uid gid token_fd child (errno_after e c))
      (λ u m' y q. elim q [
        | inl three ↦
            let entries : List (Text × Text) =
              gid_written m ∷ deny_written m ∷ uid_written m ∷ [] in
            Always-at step Reported (release token_fd stack child) (closed m entries) m' y three (
              release-Reported stack m entries y
                (three-Mapped (record (closed m entries) { released = some entries }) refl))
        | inr two ↦
            let m2 : Seen = unavailable m in
            let entries : List (Text × Text) = gid_written m ∷ uid_written m ∷ [] in
            Always-at step Reported (release token_fd stack child) (closed m2 entries) m' y two (
              release-Reported stack m2 entries y
                (two-Mapped (record (closed m2 entries) { released = some entries }) refl refl))
      ])
      (stops m)
  where
    stops :
        (m : Seen) (r : Stop) (m' : Seen) (y : ℕ)
        → Entered m m' y (End.stopped r)
        → Reported m' y (End.stopped r)
    stops m (Stop.exits n) m' y q = q
    stops m (Stop.exits_now n) m' y q = q
    stops m Stop.gone m' y q = q
    stops m Stop.unfinished m' y q = q

-- No child: everything is given back.
explain-Quiet :
    (err : ℕ) (m : Seen) (e : ℕ) → Always step (Quiet step m) (explain_clone_userns_error err) m e
unfolding explain_clone_userns_error
explain-Quiet err m e = elim (Bool-cases ((err == eperm) || (err == eacces))) [
  | inl denied ↦ rw (denied, Always) refl
  | inr other ↦ elim (Bool-cases (err == einval)) [
    | inl invalid ↦ rw (other, invalid, Always) refl
    | inr rest ↦ rw (other, rest, Always) refl
  ]
]

-- `main` of userns_map.c, whatever the kernel answers, ends with `exit(1)` or returns. It returns
-- after it has written a byte to the pipe for its child in the new user namespace, and then with
-- the child's files below /proc written as a whole in this order before: in uid_map a line of id
-- 0, the parent's user id and 1, in setgroups `deny`, unless there was no such file, and in
-- gid_map a line of id 0, the parent's group id and 1; it then returns 0 exactly if the child has
-- exited with 0, and 1 otherwise. Or it returns 1 without a release and without a status of the
-- child.
pub main-Reported : (e : ℕ) → Always step Reported main unmapped e
unfolding main spawn die
main-Reported e = λ u. λ g.
    on_answer _ (λ x. refl)
      (λ fds.
        on_answer _ (λ x. refl)
          (λ stack.
            on_answer _
              (λ x. λ c1 c2 f.
                Quiet-then step Reported (explain_clone_userns_error x) _
                  (fresh (int_value u) (int_value g) fds.1 0)
                  (fresh (int_value u) (int_value g) fds.1 0) _
                  (explain-Quiet x (fresh (int_value u) (int_value g) fds.1 0) _)
                  (λ v y. inr (refl, refl, refl)))
              (λ child. parent_run-Reported (int_value u) (int_value g) fds.0 fds.1 stack child _)))
