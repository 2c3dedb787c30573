-- ===== src/Syscall/Files.antt =====
-- The table of open files: what `sys_open` and `sys_close` do to it.
use mini_isolation_lab.Base.{
  ℕ, zero, suc, ◌+◌, ◌≤◌, ◌<◌, ◌≡◌, ◌⊎◌, inl, inr, refl, ◌∙◌, Bool, true, false, ◌||◌, arith,
  Option, none, some, List, [], ◌∷◌, length, Bool-cases, Option-cases, ◌==◌, ltb, leb, get_elem?,
  set, if◌then◌else◌,
}
use mathlib.Core.Path.{subst}
use mini_isolation_lab.Machine.{KfsNode, World, ok}
use mini_isolation_lab.Machine.Memory.{peek}
use mini_isolation_lab.Fs.Catalog.{Entry, find}
use mini_isolation_lab.Fs.Lookup.{kfs_lookup-find, kfs_lookup-empty}
use mini_isolation_lab.Fs.{kfs_lookup}
use mini_isolation_lab.Syscall.{
  Ktask, KtaskFile, KsyscallError, KsyscallResult, ksyscall_result, failure, no_file, fd_first_file,
  max_files, open_loop, sys_open, file_of, sys_close, task_contains_user_range,
}
use mini_isolation_lab.Syscall.State.{IsSound}
use mini_isolation_lab.Syscall.Range.{contains-Room, contains-ne_null}

-- A descriptor in use.
abbrev pub used_at : List KtaskFile → ℕ → Bool
used_at files fd = elim (get_elem? files fd) [ none ↦ false | some f ↦ f.used ]

abbrev pub opened_file : KfsNode → KtaskFile
opened_file node = record { node = some node; offset = 0; used = true }

-- The lowest free descriptor from `start` on is now on the node, or there is none and nothing
-- changes.
abbrev pub Opens : Ktask → KfsNode → ℕ → KsyscallResult × Option Ktask → Type 0
Opens t node start out =
    ((fd : ℕ) × (start ≤ fd)
      × (fd < max_files)
      × (used_at t.files fd ≡ false)
      × ((j : ℕ) → start ≤ j → j < fd → used_at t.files j ≡ true)
      × (out ≡ (
        ksyscall_result fd KsyscallError.success,
        some (record t { files = set t.files fd (opened_file node) }),
      )))
    ⊎ (((j : ℕ) → start ≤ j → j < max_files → used_at t.files j ≡ true)
        × (out ≡ (failure KsyscallError.emfile, some t)))

pub get_elem?_of_lt {ℓ} :
    {A : Type ℓ} (xs : List A) (i : ℕ) → i < length xs → (x : A) × (get_elem? xs i ≡ some x)
get_elem?_of_lt [] i h = absurd (omega arith)
get_elem?_of_lt (x ∷ xs) zero h = (x, refl)
get_elem?_of_lt (x ∷ xs) (suc i) h = get_elem?_of_lt xs i (omega arith)

-- A used descriptor in front of the search does not matter.
Opens-step :
    (t : Ktask) (node : KfsNode) (fd : ℕ) (out : KsyscallResult × Option Ktask)
    → used_at t.files fd ≡ true
    → Opens t node (fd + 1) out
    → Opens t node fd out
Opens-step t node fd out used opens = elim opens [
  | inl (i, from, to, free, before, result) ↦
      inl (i, omega arith, to, free, (λ j l u. extend i before j l u), result)
  | inr (all, result) ↦ inr ((λ j l u. extend max_files all j l u), result)
]
  where
    extend :
        (end : ℕ)
        → ((j : ℕ) → fd + 1 ≤ j → j < end → used_at t.files j ≡ true)
        → (j : ℕ) → fd ≤ j
        → j < end
        → used_at t.files j ≡ true
    extend end h j l u = elim (Bool-cases (fd == j)) [
      | inl e ↦ subst (λ k. used_at t.files k ≡ true) (ground arith) used
      | inr e ↦ h j (ground arith) u
    ]

open_loop-Opens :
    (n : ℕ) (t : Ktask) (node : KfsNode) (fd : ℕ) (w : World)
    → length t.files ≡ max_files
    → fd + n ≡ max_files
    → (out : KsyscallResult × Option Ktask) × (open_loop n t node fd w ≡ ok out w)
      × Opens t node fd out
unfolding open_loop
open_loop-Opens zero t node fd w table e =
    ((failure KsyscallError.emfile, some t), refl, inr ((λ j l u. absurd (omega arith)), refl))
open_loop-Opens (suc n) t node fd w table e =
    let (file, at) = get_elem?_of_lt t.files fd (omega arith) in
    elim (Bool-cases file.used) [
      | inr free ↦ (
        (
          ksyscall_result fd KsyscallError.success,
          some (record t { files = set t.files fd (opened_file node) }),
        ),
        rw (at, free),
        inl (
          fd,
          omega arith,
          omega arith,
          rw (at, used_at) free,
          (λ j l u. absurd (omega arith)),
          refl,
        ),
      )
      | inl used ↦
          let (out, run, opens) = open_loop-Opens n t node (fd + 1) w table (omega arith) in
          (out, rw (at, used) run, Opens-step t node fd out (rw (at, used_at) used) opens)
    ]

-- A lookup of a path in the user memory is a search of the catalog.
pub lookup_in_user :
    (es : List Entry) (t : Ktask) (ptr len : ℕ) (w : World)
    → IsSound es t w
    → task_contains_user_range (some t) ptr len ≡ true
    → kfs_lookup ptr len w ≡ ok (if len == 0 then none else find es (peek w.mem ptr len)) w
lookup_in_user es t ptr len w s inside = elim (Bool-cases (len == 0)) [
  | inl e ↦ kfs_lookup-empty ptr len w e ∙ rw e
  | inr e ↦
      kfs_lookup-find es ptr len w s.mounted
        (contains-ne_null t ptr len inside s.based (ground arith))
        (contains-Room t ptr len inside w.mem s.room)
]

-- The file that a path in the user memory names.
abbrev pub named_file : List Entry → World → ℕ → ℕ → Option KfsNode
named_file es w ptr len = if len == 0 then none else find es (peek w.mem ptr len)

-- What `sys_open` promises.
abbrev pub OpenOutcome : Bool → Option KfsNode → Ktask → KsyscallResult × Option Ktask → Type 0
OpenOutcome false file t out = out ≡ (failure KsyscallError.efault, some t)
OpenOutcome true none t out = out ≡ (failure KsyscallError.enoent, some t)
OpenOutcome true (some n) t out = Opens t n fd_first_file out

sys_open-inside :
    (es : List Entry) (t : Ktask) (ptr len : ℕ) (w : World)
    → IsSound es t w
    → task_contains_user_range (some t) ptr len ≡ true
    → (file : Option KfsNode) → named_file es w ptr len ≡ file
    → (out : KsyscallResult × Option Ktask) × (sys_open (some t) ptr len w ≡ ok out w)
      × OpenOutcome true file t out
unfolding sys_open
sys_open-inside es t ptr len w s inside none miss = (
  (failure KsyscallError.enoent, some t),
  rw (inside, lookup_in_user es t ptr len w s inside, miss),
  refl,
)
sys_open-inside es t ptr len w s inside (some n) hit =
    let (out, run, opens) = open_loop-Opens 5 t n 3 w s.table refl in
    (out, rw (inside, lookup_in_user es t ptr len w s inside, hit) run, opens)

sys_open-efault :
    (t : Ktask) (ptr len : ℕ) (w : World)
    → task_contains_user_range (some t) ptr len ≡ false
    → sys_open (some t) ptr len w ≡ ok (failure KsyscallError.efault, some t) w
unfolding sys_open
sys_open-efault t ptr len w outside = rw outside

-- `sys_open` on a state in order: a path outside the user memory is refused; one that names no
-- file is not found; else the lowest free descriptor is opened at the start of the first valid
-- node of that name, or, with none free, the call fails. The world stays as it was on every
-- branch.
pub sys_open_outcome :
    (es : List Entry) (t : Ktask) (ptr len : ℕ) (w : World)
    → IsSound es t w
    → (out : KsyscallResult × Option Ktask) × (sys_open (some t) ptr len w ≡ ok out w)
      × OpenOutcome (task_contains_user_range (some t) ptr len) (named_file es w ptr len) t out
sys_open_outcome es t ptr len w s = elim (Bool-cases (task_contains_user_range (some t) ptr len)) [
  | inl inside ↦
      let (out, run, good) =
        sys_open-inside es t ptr len w s inside (named_file es w ptr len) refl in
      (out, run, rw inside good)
  | inr outside ↦
      ((failure KsyscallError.efault, some t), sys_open-efault t ptr len w outside, rw outside)
]

-- What the test of `sys_close` and `sys_read` finds.
abbrev pub open_at : List KtaskFile → ℕ → Option KtaskFile
open_at files fd =
    if ltb fd fd_first_file || leb max_files fd
    then none
    else elim (get_elem? files fd) [ none ↦ none | some f ↦ if f.used then some f else none ]

pub open_at-get :
    (files : List KtaskFile) (fd : ℕ) (f : KtaskFile)
    → open_at files fd ≡ some f
    → get_elem? files fd ≡ some f
open_at-get files fd f e = ground arith

pub file_of-open_at :
    (t : Ktask) (fd : ℕ) (w : World)
    → length t.files ≡ max_files
    → file_of (some t) fd w
      ≡ ok (elim (open_at t.files fd) [ none ↦ none | some f ↦ some (t, f) ]) w
unfolding file_of
file_of-open_at t fd w table = elim (Bool-cases (ltb fd fd_first_file || leb max_files fd)) [
  | inl bad ↦ rw bad
  | inr good ↦
      let (file, at) = get_elem?_of_lt t.files fd (ground arith) in
      elim (Bool-cases file.used) [
        | inl used ↦ rw (good, at, used)
        | inr free ↦ rw (good, at, free)
      ]
]

-- What `sys_close` returns.
abbrev pub closed : Ktask → ℕ → Option KtaskFile → KsyscallResult × Option Ktask
closed t fd none = (failure KsyscallError.ebadf, some t)
closed t fd (some f) =
    (ksyscall_result 0 KsyscallError.success, some (record t { files = set t.files fd no_file }))

-- `sys_close` on a task with eight slots empties the slot of an open descriptor, and refuses every
-- other number, with nothing else changed.
pub sys_close-closed :
    (t : Ktask) (fd : ℕ) (w : World)
    → length t.files ≡ max_files
    → sys_close (some t) fd w ≡ ok (closed t fd (open_at t.files fd)) w
unfolding sys_close
sys_close-closed t fd w table = elim (Option-cases (open_at t.files fd)) [
  | inl e ↦ rw (file_of-open_at t fd w table, e)
  | inr (f, e) ↦ rw (file_of-open_at t fd w table, e)
]
