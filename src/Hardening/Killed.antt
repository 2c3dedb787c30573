-- ===== src/Hardening/Killed.antt =====
-- How the two processes of container_hardening.c end.
use Prim.Native.String.{String}
use mini_isolation_lab.Base.{
  ℕ, ◌≤◌, ◌≡◌, ◌⊎◌, inl, inr, refl, Bool, true, false, Bool-cases, Option, none, some, ◌==◌,
  if◌then◌else◌,
}
use mini_isolation_lab.Host.{Event, called, Call, done, WaitStatus, exited, signaled}
use mini_isolation_lab.Host.Paths.{End, Stop, Always, on_answer}
use mini_isolation_lab.Status.Reading.{
  Counted, counting, Reads, Reads-then, field-then, print_status_field-Reads,
}
use mini_isolation_lab.Hardening.{
  sigkill, die, print_status_snapshot, forbidden, enter_strict, child_demo, report, collect, main,
}

-- Whether this is the child, what it has applied to itself, and what the parent has got of it.
pub record Seen : Type 0 where
  pub in_child : Bool
  pub no_new_privs : Bool
  pub strict : Bool
  pub status : Option WaitStatus

abbrev pub step : Seen → Event → Seen
step m (called Call.fork (done pid)) = record m { in_child = pid == 0 }
step m (called Call.set_no_new_privs (done n)) = record m { no_new_privs = true }
step m (called Call.set_seccomp_strict (done n)) = record m { strict = true }
step m (called (Call.waitpid pid) (done (p, s))) = record m { status = some s }
step m _ = m

abbrev pub host : Seen
host = record { in_child = false; no_new_privs = false; strict = false; status = none }

abbrev pub start : Counted Seen
start = record { lines = 0; seen = host }

abbrev pub killed : WaitStatus → Bool
killed (signaled sig) = sig == sigkill
killed _ = false

-- The parent returns 0 exactly if the child was killed; the child ends with `_exit(2)` only before strict mode, with
-- `_exit(3)`, `_exit(4)` or in its forbidden call only in it, never without the first step and never with a return.
-- `exit(1)` may end both, and each of them may have read this many lines and read on.
abbrev pub Hardened : ℕ → Counted Seen → ℕ → End ℕ → Type 0
Hardened fuel m e (End.returned n) =
    (m.seen.in_child ≡ false)
    × ((status : WaitStatus) × (m.seen.status ≡ some status)
        × (n ≡ (if killed status then 0 else 1)))
Hardened fuel m e (End.stopped (Stop.exits n)) = (n ≡ 1) × (m.seen.strict ≡ false)
Hardened fuel m e (End.stopped (Stop.exits_now n)) =
    (m.seen.in_child ≡ true)
    × (m.seen.no_new_privs ≡ true)
    × (((n ≡ 2) × (m.seen.strict ≡ false)) ⊎ (((n ≡ 3) ⊎ (n ≡ 4)) × (m.seen.strict ≡ true)))
Hardened fuel m e (End.stopped Stop.gone) =
    (m.seen.in_child ≡ true) × (m.seen.no_new_privs ≡ true) × (m.seen.strict ≡ true)
Hardened fuel m e (End.stopped Stop.unfinished) = fuel ≤ m.lines

-- The monitor at a number of lines.
abbrev at : ℕ → Seen → Counted Seen
at n a = record { lines = n; seen = a }

snapshot-Reads :
    (fuel n : ℕ) (label : String) (a : Seen) (e : ℕ)
    → Always (counting step) (Reads step fuel a) (print_status_snapshot fuel label) (at n a) e
unfolding print_status_snapshot
snapshot-Reads fuel n label a e =
    field-then step (Reads step fuel a) _ fuel n label "NoNewPrivs:" a e long (λ n1 e1.
      field-then step (Reads step fuel a) _ fuel n1 label "Seccomp:" a e1 long
        (λ n2 e2. print_status_field-Reads step fuel n2 label "CapEff:" a e2))
  where
    long :
        (m' : Counted Seen) (e' : ℕ)
        → fuel ≤ m'.lines
        → m'.seen ≡ a
        → Reads step fuel a {B = Unit {0}} m' e' (End.stopped Stop.unfinished)
    long m' e' l same = (l, same)

-- The child before and after the first step.
abbrev forked : Seen
forked = record host { in_child = true }

enter_strict-Hardened :
    (fuel n e : ℕ)
    → Always
        (counting step)
        (Hardened fuel)
        enter_strict
        (at n (record forked { no_new_privs = true }))
        e
unfolding enter_strict forbidden
enter_strict-Hardened fuel n e =
    on_answer _ (λ x. (refl, refl, inl (refl, refl)))
      (λ set.
        on_answer _ (λ x. (refl, refl, inr (inl refl, refl)))
          (λ w. ((refl, refl, refl), λ pid w'. (refl, refl, inr (inr refl, refl)))))

child_demo-Hardened :
    (fuel n e : ℕ) → Always (counting step) (Hardened fuel) (child_demo fuel) (at n forked) e
unfolding child_demo die
child_demo-Hardened fuel n e =
    Reads-then step fuel forked (Hardened fuel)
      (print_status_snapshot fuel "child before hardening") _ (at n forked) e
      (snapshot-Reads fuel n "child before hardening" forked e) (λ m' e' l same. l)
      (λ u n1 e1.
        on_answer _ (λ x. (refl, refl))
          (λ set.
            let safe : Seen = record forked { no_new_privs = true } in
            Reads-then step fuel safe (Hardened fuel)
              (print_status_snapshot fuel "child after no_new_privs") _ (at n1 safe) e1
              (snapshot-Reads fuel n1 "child after no_new_privs" safe e1) (λ m' e' l same. l)
              (λ u' n2 e2. enter_strict-Hardened fuel n2 e2)))

report-Hardened :
    (fuel n e : ℕ) (status : WaitStatus)
    → Always
        (counting step)
        (Hardened fuel)
        (report status)
        (at n (record host { status = some status }))
        e
unfolding report
report-Hardened fuel n e (signaled sig) = elim (Bool-cases (sig == sigkill)) [
  | inl kill ↦ rw (kill, Always) (refl, (signaled sig, refl, rw kill refl))
  | inr other ↦ rw (other, Always) (refl, (signaled sig, refl, rw other refl))
]
report-Hardened fuel n e (exited code) = elim (Bool-cases (code == 2)) [
  | inl two ↦ rw (two, Always) (refl, (exited code, refl, refl))
  | inr other ↦ rw (other, Always) (refl, (exited code, refl, refl))
]
report-Hardened fuel n e (WaitStatus.other_status s) =
    (refl, (WaitStatus.other_status s, refl, refl))

-- `main` of container_hardening.c in both processes, whatever the kernel answers. The parent
-- returns 0 exactly if its child was killed by SIGKILL. The child does not return: after it has
-- set no_new_privs it ends with `_exit(2)` out of strict seccomp, or with `_exit(3)`, `_exit(4)`
-- or in the forbidden call within it. Either may end with `exit(1)`, out of strict seccomp, and
-- either is unfinished only after as many lines of the status file as it has rounds.
pub main-Hardened : (fuel e : ℕ) → Always (counting step) (Hardened fuel) (main fuel) start e
unfolding main collect die
main-Hardened fuel e =
    Reads-then step fuel host (Hardened fuel) (print_status_snapshot fuel "parent") _ start e
      (snapshot-Reads fuel 0 "parent" host e) (λ m' e' l same. l)
      (λ u n e'.
        on_answer _ (λ x. (refl, refl))
          (λ pid. elim (Bool-cases (pid == 0)) [
            | inl child ↦ rw (child, Always, counting) (child_demo-Hardened fuel n e')
            | inr parent ↦
                rw (parent, Always, counting)
                  (on_answer _ (λ x. (refl, refl)) (λ a. report-Hardened fuel n e' a.1))
          ]))
