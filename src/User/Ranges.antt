-- ===== src/User/Ranges.antt =====
-- The check of a range by the runtime beside that by the kernel.
use mini_isolation_lab.Base.{ℕ, ◌+◌, ◌^◌, ◌≤◌, ◌<◌, ◌≡◌, inr, true, arith, some}
use mini_isolation_lab.Syscall.{task_contains_user_range}
use mini_isolation_lab.Syscall.Range.{contains_iff}
use mini_isolation_lab.User.{KuserProcess, user_range_ok, user_ptr, memory_size}

-- The task's user memory is the process' array, which does not go round the end of the address space.
pub record IsHome (p : KuserProcess) : Type 0 where
  pub base : p.task.user_base ≡ p.memory
  pub size : p.task.user_len ≡ memory_size
  pub no_wrap : p.memory + memory_size < 2 ^ 64

user_range_ok_le : (offset len : ℕ) → user_range_ok offset len ≡ true → offset + len ≤ memory_size
unfolding user_range_ok
user_range_ok_le offset len h = ground arith

-- A range of the array that the runtime accepts is accepted by the kernel, when the task's user
-- memory is the process' array and does not go round the end of the address space.
pub user_range_ok-contains :
    (p : KuserProcess) (offset len : ℕ)
    → IsHome p
    → user_range_ok offset len ≡ true
    → task_contains_user_range (some p.task) (user_ptr p offset) len ≡ true
user_range_ok-contains p offset len home h =
    let most = user_range_ok_le offset len h in
    (contains_iff p.task (user_ptr p offset) len).1 (
      inr (record {
        from = omega (arith, home.base);
        to = omega (arith, home.base, home.size);
        no_wrap = omega (arith, home.base, home.size, home.no_wrap);
      }))
