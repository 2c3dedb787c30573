-- ===== src/Kvm/Api.antt =====
-- src/part-08-kvm/kvm_api_version.c: the version of the interface.
use mini_isolation_lab.Base.{
  ℕ, ◌≡◌, ◌≢◌, ◌⊎◌, inl, inr, refl, arith, Bool-cases, ==_refl, List, [], ◌∷◌, ◌==◌, ◌!=◌,
  if◌then◌else◌,
}
use mini_isolation_lab.Host.{
  lit, number, error_text, Flag, Event, called, Request, Call, done, failed, Prog, ret, ◌>>=◌, ◌>>◌,
  sys, do_call, errno, printf, fprintf,
}
use mini_isolation_lab.Host.Format.{chars}
use mini_isolation_lab.Host.Paths.{End, Always, Quiet-then, on_answer}
use mini_isolation_lab.Kvm.{kvm_api_version, explain_open_kvm_error}
use mini_isolation_lab.Kvm.Opening.{explain-Quiet}
use mini_isolation_lab.Host.Resources.{without}

-- `main` of kvm_api_version.c; the version is printed before it is compared.
unfoldable pub main : Prog ℕ
main = do
  opened ← sys (Call.open_file (chars "/dev/kvm") (Flag.o_rdwr ∷ Flag.o_cloexec ∷ []))
  elim opened [
    | failed err ↦ do e ← errno; explain_open_kvm_error e; ret 1
    | done kvm_fd ↦ do
      asked ← sys (Call.ioctl kvm_fd Request.get_api_version)
      elim asked [
        | failed err ↦ do
          e ← errno
          fprintf (lit "KVM_GET_API_VERSION: " ∷ error_text e ∷ lit "\n" ∷ [])
          do_call (Call.close_fd kvm_fd)
          ret 1
        | done version ↦ do
          printf (lit "KVM API version: " ∷ number version ∷ lit "\n" ∷ [])
          printf (lit "expected by headers: " ∷ number kvm_api_version ∷ lit "\n" ∷ [])
          do_call (Call.close_fd kvm_fd)
          if version != kvm_api_version
              then (do
                fprintf (
                    lit "KVM API mismatch: kernel returned "
                    ∷ number version
                    ∷ lit " but these headers expect "
                    ∷ number kvm_api_version
                    ∷ lit
                        ". Build against headers matching the running kernel or use a compatible host.\n"
                    ∷ [])
                ret 1)
              else ret 0
      ]
  ]

-- The open files, and the version that was answered.
pub record Seen : Type 0 where
  pub fds : List ℕ
  pub version : ℕ

abbrev pub step : Seen → Event → Seen
step m (called (Call.open_file path flags) (done fd)) = record m { fds = fd ∷ m.fds }
step m (called (Call.close_fd fd) a) = record m { fds = without (λ y. fd == y) m.fds }
step m (called (Call.ioctl fd Request.get_api_version) (done v)) = record m { version = v }
step m _ = m

abbrev pub unasked : Seen
unasked = record { fds = []; version = 0 }

-- `main` returns, with nothing left open, and 0 exactly for the version of the headers.
abbrev pub Compared : Seen → ℕ → End ℕ → Type 0
Compared m e (End.returned n) =
    (m.fds ≡ [])
    × (((n ≡ 0) × (m.version ≡ kvm_api_version)) ⊎ ((n ≡ 1) × (m.version ≢ kvm_api_version)))
Compared m e (End.stopped x) = ⊥

-- `main` of kvm_api_version.c, whatever the kernel answers, returns with no file open, and 0
-- exactly if the version is that of the headers, and 1 otherwise.
pub main-Compared : (e : ℕ) → Always step Compared main unasked e
unfolding main
main-Compared e =
    on_answer _
      (λ x.
        Quiet-then step Compared (explain_open_kvm_error x) _ unasked unasked x
          (explain-Quiet step (λ m ps. refl) x unasked x) (λ u e'. (refl, inr (refl, omega arith))))
      (λ fd.
        on_answer _ (λ x. λ closed. rw (==_refl fd) (refl, inr (refl, omega arith)))
          (λ v. λ closed. elim (Bool-cases (v != kvm_api_version)) [
            | inl other ↦ rw (other, Always, ==_refl fd) (refl, inr (refl, ground (arith, other)))
            | inr same ↦ rw (same, Always, ==_refl fd) (refl, inl (refl, ground (arith, same)))
          ]))
