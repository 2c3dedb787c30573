-- ===== src/Syscall/Session.antt =====
-- An open, a read and a close of one file.
use mini_isolation_lab.Base.{
  ℕ, ◌≤◌, ◌<◌, ◌≡◌, refl, ap, ◌∙◌, inl, inr, true, false, arith, some, List, set, length,
  get_elem?-set_self, set_twice,
}
use mathlib.Core.Path.{subst}
use mathlib.Core.Option.{some-injective}
use mini_isolation_lab.Machine.{World, KfsNode, ok}
use mini_isolation_lab.Fs.Catalog.{Entry}
use mini_isolation_lab.Syscall.{
  Ktask, KtaskFile, KsyscallError, ksyscall_result, task_contains_user_range, sys_open, sys_read,
  sys_close, fd_first_file, max_files, no_file,
}
use mini_isolation_lab.Syscall.State.{IsSound, IsBacked, IsOpenFile, IsSound-set}
use mini_isolation_lab.Syscall.Files.{
  used_at, opened_file, Opens, named_file, sys_open_outcome, open_at, closed, sys_close-closed,
}
use mini_isolation_lab.Syscall.Read.{read_outcome, sys_read_outcome}
use mini_isolation_lab.Syscall.Stat.{named_file-IsBacked}

open_at-set :
    (files : List KtaskFile) (fd : ℕ) (f : KtaskFile)
    → length files ≡ max_files
    → fd_first_file ≤ fd
    → fd < max_files
    → f.used ≡ true
    → open_at (set files fd f) fd ≡ some f
open_at-set files fd f table from to used =
    let here = get_elem?-set_self files fd f (omega (arith, table)) in ground (arith, here, used)

-- Opened, the descriptor reads the file from its start and closes to an empty slot.
abbrev pub Serves : List Entry → Ktask → World → KfsNode → ℕ → Ktask → Type 0
Serves es t w n fd t' =
    ((dst len : ℕ)
      → sys_read (some t') fd dst len w
        ≡ read_outcome t' fd dst len w (some (opened_file n))
            (task_contains_user_range (some t') dst len))
    × (sys_close (some t') fd w
        ≡ ok
            (
              ksyscall_result 0 KsyscallError.success,
              some (record t { files = set t.files fd no_file }),
            )
            w)

opened-Serves :
    (es : List Entry) (t : Ktask) (n : KfsNode) (fd : ℕ) (w : World)
    → IsSound es t w
    → IsOpenFile w.mem t.user_base t.user_len (opened_file n)
    → fd_first_file ≤ fd
    → fd < max_files
    → Serves es t w n fd (record t { files = set t.files fd (opened_file n) })
opened-Serves es t n fd w s o from to =
    let f = opened_file n in
    let t' : Ktask = record t { files = set t.files fd f } in
    let s' = IsSound-set es t w fd f s o in
    let at = open_at-set t.files fd f s.table from to refl in
    (
      λ dst len.
          sys_read_outcome es t' fd dst len w s'
          ∙ ap
              (λ file.
                read_outcome t' fd dst len w file (task_contains_user_range (some t') dst len))
              at,
      sys_close-closed t' fd w s'.table
          ∙ ap (λ file. ok (closed t' fd file) w) at
          ∙ ap
              (λ files.
                ok (ksyscall_result 0 KsyscallError.success, some (record t { files = files })) w)
              (set_twice t.files fd f no_file),
    )

-- With a free descriptor, `sys_open` of a path in the user memory that names a file succeeds, with
-- the world as it was. The new descriptor reads the file from its start, into any range, and
-- `sys_close` of it succeeds and leaves the task as it was but for an empty slot. Hypothesis: the
-- state is in order.
pub open-read-close :
    (es : List Entry) (t : Ktask) (ptr len free : ℕ) (n : KfsNode) (w : World)
    → IsSound es t w
    → task_contains_user_range (some t) ptr len ≡ true
    → named_file es w ptr len ≡ some n
    → fd_first_file ≤ free
    → free < max_files
    → used_at t.files free ≡ false
    → (fd : ℕ) × (t' : Ktask) × (sys_open (some t) ptr len w
        ≡ ok (ksyscall_result fd KsyscallError.success, some t') w)
      × Serves es t w n fd t'
open-read-close es t ptr len free n w s inside named from to unused =
    let (out, run, good) = sys_open_outcome es t ptr len w s in
    let backed = (named_file-IsBacked es t ptr len w n s named).1 in
    let both : used_at t.files free ≡ true → used_at t.files free ≡ false → ⊥ = λ a b. cc in
    let o : IsOpenFile w.mem t.user_base t.user_len (opened_file n) = record {
      node = λ k e. subst (IsBacked w.mem t.user_base t.user_len) (some-injective n k e) backed;
      offset = omega arith;
    } in
    let opens : Opens t n fd_first_file out = rw (inside, named) at good in
    elim opens [
      | inl (fd, low, high, was, below, e) ↦ (
        fd,
        record t { files = set t.files fd (opened_file n) },
        run ∙ ap (λ x. ok x w) e,
        opened-Serves es t n fd w s o low high,
      )
      | inr (full, e) ↦ absurd (both (full free from to) unused)
    ]
