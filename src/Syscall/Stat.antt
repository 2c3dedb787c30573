-- ===== src/Syscall/Stat.antt =====
-- `sys_stat`: the struct that it writes into the user memory.
use mini_isolation_lab.Base.{
  ℕ, ◌≡◌, Bool, true, false, ◌&&◌, arith, Option, none, some, List, inl, inr, Bool-cases,
  Option-cases, ◌==◌,
}
use mini_isolation_lab.Machine.{KfsNode, World, Run, ok, with_mem}
use mini_isolation_lab.Machine.Memory.{overlay, peek}
use mini_isolation_lab.Fs.{node_is_valid, stat_bytes, sizeof_stat}
use mini_isolation_lab.Fs.Catalog.{Entry}
use mini_isolation_lab.Fs.Stat.{kfs_stat_node-overlay}
use mini_isolation_lab.Syscall.{
  Ktask, KsyscallError, KsyscallResult, ksyscall_result, failure, sys_stat,
  task_contains_user_range,
}
use mini_isolation_lab.Syscall.Range.{contains-Room, contains-ne_null}
use mini_isolation_lab.Syscall.State.{IsSound, find-IsBacked, IsBacked}
use mini_isolation_lab.Syscall.Files.{named_file, lookup_in_user}

-- What `sys_stat` does, by whether both ranges are accepted and what the path names.
abbrev pub stat_outcome : Bool → Option KfsNode → ℕ → World → Run KsyscallResult
stat_outcome false file stat_ptr w = ok (failure KsyscallError.efault) w
stat_outcome true none stat_ptr w = ok (failure KsyscallError.enoent) w
stat_outcome true (some n) stat_ptr w =
    ok (ksyscall_result 0 KsyscallError.success)
      (with_mem w (overlay w.mem stat_ptr (stat_bytes n.size n.mode 1)))

abbrev pub both_inside : Ktask → ℕ → ℕ → ℕ → Bool
both_inside t path_ptr path_len stat_ptr =
    task_contains_user_range (some t) path_ptr path_len
    && task_contains_user_range (some t) stat_ptr sizeof_stat

pub named_file-IsBacked :
    (es : List Entry) (t : Ktask) (ptr len : ℕ) (w : World) (n : KfsNode)
    → IsSound es t w
    → named_file es w ptr len ≡ some n
    → (node_is_valid (some n) ≡ true) × IsBacked w.mem t.user_base t.user_len n
named_file-IsBacked es t ptr len w n s hit = elim (Bool-cases (len == 0)) [
  | inl e ↦ absurd (ground arith)
  | inr e ↦
      find-IsBacked w.mem t.user_base t.user_len es (peek w.mem ptr len) n s.placed (ground arith)
]

-- `sys_stat` on a state in order. A range outside the user memory is refused, a path that names no
-- file is not found, and otherwise size, mode and kind of the file stand at `stat_ptr`; it never
-- fails with `KSYSCALL_EINVAL`, and writes nothing but the fields of the struct.
pub sys_stat_outcome :
    (es : List Entry) (t : Ktask) (path_ptr path_len stat_ptr : ℕ) (w : World)
    → IsSound es t w
    → sys_stat (some t) path_ptr path_len stat_ptr w
      ≡ stat_outcome
          (both_inside t path_ptr path_len stat_ptr)
          (named_file es w path_ptr path_len)
          stat_ptr
          w
unfolding sys_stat
sys_stat_outcome es t path_ptr path_len stat_ptr w s =
    elim (Bool-cases (task_contains_user_range (some t) path_ptr path_len)) [
      | inr out ↦ rw out
      | inl path_in ↦ elim (Bool-cases (task_contains_user_range (some t) stat_ptr sizeof_stat)) [
        | inr out ↦ rw (path_in, out)
        | inl stat_in ↦
            let found = lookup_in_user es t path_ptr path_len w s path_in in
            elim (Option-cases (named_file es w path_ptr path_len)) [
              | inl miss ↦ rw (path_in, stat_in, found, miss)
              | inr (n, hit) ↦
                  let v = (named_file-IsBacked es t path_ptr path_len w n s hit).0 in
                  rw (
                    path_in,
                    stat_in,
                    found,
                    hit,
                    kfs_stat_node-overlay n stat_ptr w v
                        (contains-ne_null t stat_ptr sizeof_stat stat_in s.based (omega arith))
                        (λ a l u.
                          contains-Room t stat_ptr sizeof_stat stat_in w.mem s.room a l
                            (omega arith)),
                  )
            ]
      ]
    ]
