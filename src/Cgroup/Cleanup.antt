-- ===== src/Cgroup/Cleanup.antt =====
-- The demo's cgroup on every path through cgroup_limit.c.
use mini_isolation_lab.Base.{ℕ, ◌+◌, ◌≤◌, ◌≡◌, ◌≢◌, ◌⊎◌, Option, some}
use mini_isolation_lab.Host.{WaitStatus, exited}
use mini_isolation_lab.Host.Paths.{End, Stop}
use mini_isolation_lab.Cgroup.Quiet.{Seen}

-- What the exit status of `main` is for a status of the child.
abbrev reported : Option WaitStatus → ℕ
reported (some (exited code)) = code
reported _ = 1

-- After the loop around `waitpid`: nothing is refused or removed, and a child that was not reaped after `exit(0)` is
-- not reported as a success. Without an end every round has missed the child.
abbrev Waited : ℕ → Seen → Seen → ℕ → End (Option WaitStatus) → Type 0
Waited k m m' e (End.returned status) =
    (m'.refused ≡ m.refused)
    × (m'.removals ≡ m.removals)
    × (m'.strays ≡ m.strays)
    × ((reported status ≢ 0) ⊎ (1 ≤ m'.clean))
Waited k m m' e (End.stopped Stop.unfinished) =
    (m'.refused ≡ m.refused)
    × (m'.removals ≡ m.removals)
    × (m'.strays ≡ m.strays)
    × (m.missed + k ≤ m'.missed)
Waited k m m' e _ = ⊥

abbrev miss : Seen → Seen
miss m = record m { missed = m.missed + 1 }

-- How `main` may end: refused the cgroup, with nothing removed; or with the removal of the cgroup tried exactly once,
-- and not with 0 unless the child was reaped after `exit(0)`. The child leaves the cgroup alone. No other directory is
-- ever touched.
abbrev pub Cleaned : ℕ → Seen → ℕ → End ℕ → Type 0
Cleaned fuel m e (End.returned n) =
    (m.strays ≡ 0)
    × (((m.refused ≡ 1) × (m.removals ≡ 0) × (n ≡ 1))
        ⊎ ((m.refused ≡ 0) × (m.removals ≡ 1) × ((n ≢ 0) ⊎ (1 ≤ m.clean))))
Cleaned fuel m e (End.stopped (Stop.exits_now n)) = (m.strays ≡ 0) × (m.removals ≡ 0)
Cleaned fuel m e (End.stopped Stop.unfinished) =
    (m.strays ≡ 0) × (m.removals ≡ 0) × (fuel ≤ m.missed)
Cleaned fuel m e _ = ⊥

-- The state of the monitor while the cgroup is there.
abbrev Working : Seen → Type 0
Working m = (m.refused ≡ 0) × (m.removals ≡ 0) × (m.strays ≡ 0)

abbrev pub unseen : Seen
unseen = record { child = 0; refused = 0; removals = 0; clean = 0; missed = 0; strays = 0 }

-- Once the cgroup's creation is refused.
abbrev rejected : Seen
rejected = record unseen { refused = 1 }
