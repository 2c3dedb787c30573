-- ===== src/Kvm/Firecracker/Release.antt =====
-- How mini_firecracker.c ends, whatever the kernel answers and the guest does.
use mini_isolation_lab.Base.{ℕ, ◌≡◌, ◌⊎◌, none, []}
use mini_isolation_lab.Host.Paths.{End, Stop}
use mini_isolation_lab.Kvm.Firecracker.{Held}
use mini_isolation_lab.Kvm.Firecracker.Watch.{Vm}
use mini_isolation_lab.Kvm.Firecracker.Loop.{machine, Died}

-- Every end of `main`.
abbrev pub Released : ℕ → Vm → ℕ → End ℕ → Type 0
Released fuel m e (End.returned n) =
    ((n ≡ 1) × (m.runs ≡ 0))
    ⊎ ((m.early ≡ 0)
        × (m.foreign ≡ 0)
        × (m.shown ≡ m.sent)
        × (m.fds ≡ [])
        × (m.maps ≡ [])
        × (((n ≡ 0) × (m.halts ≡ 1)) ⊎ ((n ≡ 1) × (m.halts ≡ 0))))
Released fuel m e (End.stopped Stop.unfinished) =
    (m.early ≡ 0) × (m.foreign ≡ 0) × (m.shown ≡ m.sent) × (m.halts ≡ 0) × (m.runs ≡ fuel)
Released fuel m e (End.stopped x) = Died m x

-- Before the vCPU has its registers.
abbrev waiting : Held → Vm
waiting held = record (machine held 0 0 [] []) { regs = none }
