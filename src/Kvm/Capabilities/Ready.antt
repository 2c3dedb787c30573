-- ===== src/Kvm/Capabilities/Ready.antt =====
-- The verdict of kvm_capabilities.c and what the kernel has answered.
use Prim.Native.String.{String}
use mathlib.Core.Path.{subst}
use mini_isolation_lab.Base.{
  ℕ, ◌≡◌, inl, inr, refl, arith, Bool, true, Bool-cases, ==_refl, List, [], ◌∷◌, ◌==◌, ◌!=◌, ◌&&◌,
  ltb, leb, if◌then◌else◌, sym,
}
use mini_isolation_lab.Host.{exit_failure, Event, called, Request, Call, done, Prog, ◌>>=◌}
use mini_isolation_lab.Host.Paths.{End, Stop, Always, Ends, Ends-then, Quiet, Quiet-then, on_answer}
use mini_isolation_lab.Kvm.{kvm_api_version, checked_ioctl}
use mini_isolation_lab.Kvm.Opening.{open-then}
use mini_isolation_lab.Host.Resources.{without}
use mini_isolation_lab.Kvm.Capabilities.{
  CapKind, print_value, check_capability, check_optional, checklist, main, kvm_cap_user_memory,
  kvm_cap_nr_memslots, kvm_cap_irqchip, kvm_cap_ioeventfd, kvm_cap_irqfd, kvm_cap_mp_state,
}

-- The open files, and the last answers: the version, and the values of the two required extensions.
pub record Seen : Type 0 where
  pub fds : List ℕ
  pub version : ℕ
  pub user_memory : ℕ
  pub memslots : ℕ

abbrev pub note : Seen → ℕ → ℕ → Seen
note m capability value =
    if capability == kvm_cap_user_memory
    then record m { user_memory = value }
    else if capability == kvm_cap_nr_memslots
    then record m { memslots = value }
    else m

abbrev pub step : Seen → Event → Seen
step m (called (Call.open_file path flags) (done fd)) = record m { fds = fd ∷ m.fds }
step m (called (Call.close_fd fd) a) = record m { fds = without (λ y. fd == y) m.fds }
step m (called (Call.ioctl fd Request.get_api_version) (done v)) = record m { version = v }
step m (called (Call.ioctl fd (Request.check_extension c)) (done v)) = note m c v
step m _ = m

abbrev pub unasked : Seen
unasked = record { fds = []; version = 0; user_memory = 0; memslots = 0 }

-- The kernel speaks this version, can back a guest's memory, and has a slot for it.
abbrev pub is_ready : Seen → Bool
is_ready m = (m.version == kvm_api_version) && (ltb 0 m.user_memory && ltb 0 m.memslots)

-- `main` returns, with nothing left open, and 0 exactly if the answers are so; or it ends with `exit(1)`.
abbrev pub Judged : Seen → ℕ → End ℕ → Type 0
Judged m e (End.returned n) = (m.fds ≡ []) × (n ≡ (if is_ready m then 0 else 1))
Judged m e (End.stopped (Stop.exits n)) = n ≡ 1
Judged m e _ = ⊥

print_value-Quiet :
    (kind : CapKind) (name : String) (value : ℕ) (m : Seen) (e : ℕ)
    → Always step (Quiet step m) (print_value kind name value) m e
unfolding print_value
print_value-Quiet CapKind.cap_count name value m e = refl
print_value-Quiet CapKind.cap_boolean name value m e = elim (Bool-cases (ltb 1 value)) [
  | inl large ↦ rw (large, Always) refl
  | inr small ↦ rw (small, Always) refl
]

-- The value is the kernel's answer, and only that is noted.
check_capability-Ends :
    (fd capability : ℕ) (name : String) (kind : CapKind) (required : Bool) (why : String) (m : Seen)
    (e : ℕ)
    → Always step
        (Ends step (note m capability))
        (check_capability fd capability name kind required why)
        m
        e
unfolding check_capability checked_ioctl
check_capability-Ends fd capability name kind required why m e =
    on_answer _ (λ x. refl)
      (λ v.
        Quiet-then step (Ends step (note m capability)) (print_value kind name v) _
          (note m capability v) (note m capability v) e
          (print_value-Quiet kind name v (note m capability v) e)
          (λ u e'. elim (Bool-cases (required && leb v 0)) [
            | inl told ↦ rw (told, Always) refl
            | inr silent ↦ rw (silent, Always) refl
          ]))

-- One of the checks, before the rest of the program.
check-then :
    {B : Type 0} (P : Seen → ℕ → End B → Type 0) (f : ℕ → Prog B) (fd capability : ℕ)
    (name : String) (kind : CapKind) (required : Bool) (why : String) (m : Seen) (e : ℕ)
    → ((m' : Seen) (e' : ℕ) → P m' e' (End.stopped (Stop.exits 1)))
    → ((v e' : ℕ) → Always step P (f v) (note m capability v) e')
    → Always step P (check_capability fd capability name kind required why >>= f) m e
check-then P f fd capability name kind required why m e =
    Ends-then step (note m capability) P (check_capability fd capability name kind required why) f m
      e (check_capability-Ends fd capability name kind required why m e)

check_optional-Ends :
    (fd : ℕ) (m : Seen) (e : ℕ) → Always step (Ends step (λ u. m)) (check_optional fd) m e
unfolding check_optional
check_optional-Ends fd m e =
    check-then (Ends step (λ u. m)) _ fd kvm_cap_irqchip _ _ _ _ m e (λ m' x. refl)
      (λ v1 x.
        check-then (Ends step (λ u. m)) _ fd kvm_cap_ioeventfd _ _ _ _ m x (λ m' y. refl)
          (λ v2 y.
            check-then (Ends step (λ u. m)) _ fd kvm_cap_irqfd _ _ _ _ m y (λ m' z. refl)
              (λ v3 z.
                check-then (Ends step (λ u. m)) _ fd kvm_cap_mp_state _ _ _ _ m z (λ m' w. refl)
                  (λ v4 w. refl))))

-- Once the version is the right one.
abbrev same_version : ℕ → Seen
same_version fd = record unasked { fds = fd ∷ []; version = kvm_api_version }

checklist-Judged : (fd e : ℕ) → Always step Judged (checklist fd) (same_version fd) e
unfolding checklist
checklist-Judged fd e =
    check-then Judged _ fd kvm_cap_user_memory _ _ _ _ (same_version fd) e (λ m' x. refl)
      (λ user x.
        check-then Judged _ fd kvm_cap_nr_memslots _ _ _ _
          (record (same_version fd) { user_memory = user }) x (λ m' y. refl)
          (λ slots y.
            let m : Seen = record (same_version fd) { user_memory = user; memslots = slots } in
            Ends-then step (λ u. m) Judged (check_optional fd) _ m y (check_optional-Ends fd m y)
              (λ m' z. refl)
              (λ u z. elim (Bool-cases (ltb 0 user && ltb 0 slots)) [
                | inl ready ↦ rw (ready, Always) (λ closed. rw (==_refl fd, ready) (refl, refl))
                | inr missing ↦
                    rw (missing, Always) (λ closed. rw (==_refl fd, missing) (refl, refl))
              ])))

refused :
    (fd v : ℕ)
    → (v != kvm_api_version) ≡ true
    → exit_failure ≡ (if is_ready (record unasked { version = v }) then 0 else 1)
refused fd v other = ground (arith, other)

-- `main` of kvm_capabilities.c, whatever the kernel answers, returns with no file open, and 0
-- exactly if the version is that of the headers and both the user memory and the number of slots
-- are reported above 0, and 1 otherwise; or it ends with `exit(1)`.
pub main-Judged : (e : ℕ) → Always step Judged main unasked e
unfolding main checked_ioctl
main-Judged e =
    open-then step (λ m ps. refl) Judged _ unasked e (λ x e'. refl)
      (λ fd.
        on_answer _ (λ x. refl)
          (λ v. elim (Bool-cases (v != kvm_api_version)) [
            | inl other ↦ rw (other, Always) (λ closed. rw (==_refl fd) (refl, refused fd v other))
            | inr same ↦
                rw (same, Always)
                  (subst
                    (λ n.
                      Always step Judged (checklist fd) (record (same_version fd) { version = n })
                        e)
                    (sym (ground (arith, same))) (checklist-Judged fd e))
          ]))
