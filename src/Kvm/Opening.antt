-- ===== src/Kvm/Opening.antt =====
-- The opening of /dev/kvm, for every monitor that does not look at the standard error.
use mini_isolation_lab.Base.{ℕ, ◌≡◌, ◌∙◌, Bool-cases, inl, inr, [], ◌∷◌, ◌==◌, ◌||◌}
use mini_isolation_lab.Host.{
  Flag, Event, called, err, Call, done, failed, Prog, exit, exit_failure, ◌>>=◌, ◌>>◌, enoent,
  enodev, eacces, eperm,
}
use mini_isolation_lab.Host.Format.{chars}
use mini_isolation_lab.Host.Paths.{
  End, Stop, Post, Always, Always-bind, Then, Quiet, Quiet-then, on_answer,
}
use mini_isolation_lab.Kvm.{explain_open_kvm_error, open_kvm_device}

abbrev pub opening : Call
opening = Call.open_file (chars "/dev/kvm") (Flag.o_rdwr ∷ Flag.o_cloexec ∷ [])

module _ {M : Type 0} (step : M → Event → M) (deaf : (m : M) (ps : _) → step m (err ps) ≡ m) where
  pub explain-Quiet :
      (n : ℕ) (m : M) (e : ℕ) → Always step (Quiet step m) (explain_open_kvm_error n) m e
  unfolding explain_open_kvm_error
  explain-Quiet n m e = elim (Bool-cases ((n == enoent) || (n == enodev))) [
    | inl missing ↦ rw (missing, Always) (deaf _ _ ∙ deaf m _)
    | inr there ↦ elim (Bool-cases ((n == eacces) || (n == eperm))) [
      | inl denied ↦ rw (there, denied, Always) (deaf _ _ ∙ deaf m _)
      | inr other ↦ rw (there, other, Always) (deaf m _)
    ]
  ]

  -- A device that cannot be opened ends the program.
  pub open-then :
      {B : Type 0} (P : Post step B) (f : ℕ → Prog B) (m : M) (e : ℕ)
      → ((x e' : ℕ) → P (step m (called opening (failed x))) e' (End.stopped (Stop.exits 1)))
      → ((fd : ℕ) → Always step P (f fd) (step m (called opening (done fd))) e)
      → Always step P (open_kvm_device >>= f) m e
  unfolding open_kvm_device
  open-then P f m e dies goes =
      on_answer _
        (λ x.
          let m' = step m (called opening (failed x)) in
          Always-bind step P (explain_open_kvm_error x >> exit exit_failure) f m' x (
            Quiet-then step (Then step P f) (explain_open_kvm_error x) _ m' m' x
              (explain-Quiet x m' x) (λ u e'. dies x e')))
        goes
