-- ===== src/Syscall/Read.antt =====
-- `sys_read`: the next bytes of an open file, at the caller's address.
use mini_isolation_lab.Base.{
  ℕ, ◌+◌, ◌^◌, ◌≤◌, ◌<◌, ◌≡◌, inl, inr, refl, Bool, true, false, arith, Option, none, some, List,
  [], length, Bool-cases, Option-cases, set,
}
use mini_isolation_lab.Base.Words.{u64}
use mini_isolation_lab.Machine.{Mem, KfsNode, World, Run, ok, with_mem}
use mini_isolation_lab.Machine.Memory.{Room, Apart, peek, length-peek, overlay}
use mini_isolation_lab.Fs.{node_is_valid, kfs_read_node}
use mini_isolation_lab.Fs.Catalog.{Entry, readable}
use mini_isolation_lab.Fs.Read.{kfs_read_node-readable, kfs_read_node-none}
use mini_isolation_lab.Syscall.{
  Ktask, KtaskFile, KsyscallError, KsyscallResult, ksyscall_result, failure, sys_read,
  task_contains_user_range,
}
use mini_isolation_lab.Syscall.Range.{contains-Room, contains-ne_null, contains-inside}
use mini_isolation_lab.Syscall.State.{IsSound, IsOpenFile, IsBacked, AllFiles-get}
use mini_isolation_lab.Syscall.Files.{open_at, file_of-open_at, open_at-get}

-- The bytes that a read of a node at an offset gives.
abbrev pub next_bytes : Mem → Option KfsNode → ℕ → ℕ → List ℕ
next_bytes m none offset len = []
next_bytes m (some n) offset len = peek m (n.bytes + offset) (readable n offset len)

-- What `sys_read` does, by what its descriptor and range are.
abbrev pub read_outcome :
    Ktask → ℕ → ℕ → ℕ → World → Option KtaskFile → Bool → Run (KsyscallResult × Option Ktask)
read_outcome t fd dst len w none inside = ok (failure KsyscallError.ebadf, some t) w
read_outcome t fd dst len w (some f) false = ok (failure KsyscallError.efault, some t) w
read_outcome t fd dst len w (some f) true =
    let bs = next_bytes w.mem f.node f.offset len in
    ok
      (
        ksyscall_result (length bs) KsyscallError.success,
        some (record t { files = set t.files fd (record f { offset = f.offset + length bs }) }),
      )
      (with_mem w (overlay w.mem dst bs))

-- A read never goes past what was asked for, nor past the end of the file.
readable-le :
    (n : KfsNode) (offset len : ℕ)
    → (readable n offset len ≤ len)
      × (offset < 2 ^ 64 → n.size < 2 ^ 64 → offset + readable n offset len < 2 ^ 64)
readable-le n offset len = elim (Bool-cases (node_is_valid (some n))) [
  | inl v ↦ (ground arith, λ a b. ground arith)
  | inr v ↦ (ground arith, λ a b. ground arith)
]

-- A read gives no more than was asked for, and the offset behind it is a `size_t`.
pub next_bytes-fits :
    (m : Mem) (base size : ℕ) (f : KtaskFile) (len : ℕ)
    → IsOpenFile m base size f
    → let bs = next_bytes m f.node f.offset len in
      (length bs ≤ len) × (f.offset + length bs < 2 ^ 64)
next_bytes-fits m base size f len o = go f.node (λ n e. (o.node n e).size)
  where
    go :
        (node : Option KfsNode)
        → ((n : KfsNode) → node ≡ some n → n.size < 2 ^ 64)
        → let bs = next_bytes m node f.offset len in
          (length bs ≤ len) × (f.offset + length bs < 2 ^ 64)
    go none sizes = (omega arith, omega (arith, o.offset))
    go (some n) sizes =
        let (most, fits) = readable-le n f.offset len in
        (rw length-peek most, rw length-peek (fits o.offset (sizes n refl)))

module _ (t : Ktask) (dst len : ℕ) (inside : task_contains_user_range (some t) dst len ≡ true) where
  Apart-part :
      (n : KfsNode) (offset : ℕ)
      → (node_is_valid (some n) ≡ true → Apart t.user_base t.user_len n.bytes n.size)
      → Apart dst (readable n offset len) n.bytes n.size
  Apart-part n offset apart a l u =
      let (k, more) = readable-le n offset len in
      let (from, to) = contains-inside t dst len inside a l (omega arith) in
      elim (Bool-cases (node_is_valid (some n))) [
        | inl v ↦ apart v a from to
        | inr v ↦ absurd (ground arith)
      ]

  read_node-next_bytes :
      (node : Option KfsNode) (offset : ℕ) (w : World)
      → Room w.mem t.user_base t.user_len
      → 0 < t.user_base
      → ((n : KfsNode) → node ≡ some n → IsBacked w.mem t.user_base t.user_len n)
      → offset < 2 ^ 64
      → let bs = next_bytes w.mem node offset len in
        (kfs_read_node node offset dst len w ≡ ok (length bs) (with_mem w (overlay w.mem dst bs)))
        × (u64 (offset + length bs) ≡ offset + length bs)
  unfolding overlay
  read_node-next_bytes none offset w room based backed small =
      (kfs_read_node-none offset dst len w, omega arith)
  read_node-next_bytes (some n) offset w room based backed small =
      let b = backed n refl in
      let (most, fits) = readable-le n offset len in
      (
        rw length-peek (
            kfs_read_node-readable n offset dst len w b.bytes
              (contains-ne_null t dst len inside based)
              (λ a l u. contains-Room t dst len inside w.mem room a l (omega arith))
              (Apart-part n offset b.apart)),
        rw length-peek (omega (arith, fits small b.size)),
      )

-- `sys_read` on a state in order. A descriptor that is not open is refused, then a range outside
-- the user memory; else the next bytes of the file, no more than asked for, arrive at `dst`,
-- nothing else in memory changes, the offset moves behind them, and their number is the result.
pub sys_read_outcome :
    (es : List Entry) (t : Ktask) (fd dst len : ℕ) (w : World)
    → IsSound es t w
    → sys_read (some t) fd dst len w
      ≡ read_outcome t fd dst len w (open_at t.files fd) (task_contains_user_range (some t) dst len)
unfolding sys_read
sys_read_outcome es t fd dst len w s = elim (Option-cases (open_at t.files fd)) [
  | inl e ↦ rw (file_of-open_at t fd w s.table, e)
  | inr (f, e) ↦
      rw (file_of-open_at t fd w s.table, e)
        (elim (Bool-cases (task_contains_user_range (some t) dst len)) [
          | inr outside ↦ rw outside
          | inl inside ↦
              let o =
                AllFiles-get w.mem t.user_base t.user_len t.files fd f s.files
                  (open_at-get t.files fd f e) in
              let (run, fits) =
                read_node-next_bytes t dst len inside f.node f.offset w s.room s.based o.node
                  o.offset in
              rw (inside, run, fits)
        ])
]
