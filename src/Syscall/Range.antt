-- ===== src/Syscall/Range.antt =====
-- What `task_contains_user_range` accepts.
use mini_isolation_lab.Base.{
  ℕ, ◌+◌, ◌^◌, ◌≤◌, ◌<◌, ◌≡◌, ◌≢◌, ◌↔◌, ◌⊎◌, inl, inr, true, arith, some, Bool-cases, ◌==◌,
}
use mini_isolation_lab.Machine.{Addr, Mem, null}
use mini_isolation_lab.Machine.Memory.{Room}
use mini_isolation_lab.Syscall.{Ktask, task_contains_user_range}

-- The `len` bytes from `ptr` on lie in the task's user memory, and neither range goes round the end
-- of the address space.
pub record InUser (t : Ktask) (ptr len : ℕ) : Type 0 where
  pub from : t.user_base ≤ ptr
  pub to : ptr + len ≤ t.user_base + t.user_len
  pub no_wrap : t.user_base + t.user_len < 2 ^ 64

-- `task_contains_user_range` accepts a range of a task exactly if it is empty, or lies in the user
-- memory with the end of the user memory below 2 ^ 64.
pub contains_iff :
    (t : Ktask) (ptr len : ℕ)
    → (task_contains_user_range (some t) ptr len ≡ true) ↔ ((len ≡ 0) ⊎ InUser t ptr len)
unfolding task_contains_user_range
contains_iff t ptr len = (to, from)
  where
    to : task_contains_user_range (some t) ptr len ≡ true → (len ≡ 0) ⊎ InUser t ptr len
    to h = elim (Bool-cases (len == 0)) [
      | inl e ↦ inl (ground arith)
      | inr e ↦ inr (record { from = ground arith; to = ground arith; no_wrap = ground arith })
    ]

    from : (len ≡ 0) ⊎ InUser t ptr len → task_contains_user_range (some t) ptr len ≡ true
    from (inl e) = ground arith
    from (inr i) = ground (arith, i.from, i.to, i.no_wrap)

module _ (t : Ktask) (ptr len : ℕ) (h : task_contains_user_range (some t) ptr len ≡ true) where
  -- Every address of an accepted range is one of the user memory.
  pub contains-inside :
      (a : Addr) → ptr ≤ a → a < ptr + len → (t.user_base ≤ a) × (a < t.user_base + t.user_len)
  contains-inside a l u = elim ((contains_iff t ptr len).0 h) [
    | inl e ↦ absurd (omega arith)
    | inr i ↦ (omega arith, omega arith)
  ]

  pub contains-Room : (m : Mem) → Room m t.user_base t.user_len → Room m ptr len
  contains-Room m room a l u = let (from, to) = contains-inside a l u in room a from to

  pub contains-ne_null : 0 < t.user_base → 0 < len → ptr ≢ null
  contains-ne_null based some_bytes e =
      let (from, to) = contains-inside ptr (omega arith) (omega arith) in omega arith
