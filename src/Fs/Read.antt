-- ===== src/Fs/Read.antt =====
-- What `kfs_read_node` and `kfs_read` copy.
use mini_isolation_lab.Base.{
  ℕ, ◌+◌, ◌-◌, ◌<◌, ◌≡◌, ◌≢◌, refl, true, arith, inl, inr, none, some, Bool-cases, min, ltb,
}
use mini_isolation_lab.Machine.{Mem, null, KfsNode, World, ok, with_mem}
use mini_isolation_lab.Machine.Memory.{Room, Apart, peek, overlay}
use mini_isolation_lab.KernelLib.Copy.{copy_loop-overlay}
use mini_isolation_lab.Fs.{node_is_valid, kfs_read_node}
use mini_isolation_lab.Fs.Catalog.{readable}

-- The bytes of a valid node are mapped.
abbrev pub HasBytes : Mem → KfsNode → Type 0
HasBytes m n = node_is_valid (some n) ≡ true → Room m n.bytes n.size

-- `kfs_read_node` copies the bytes from the offset on, as many as are asked for and left, and
-- returns their number; on an invalid node or past the end it copies nothing. Hypotheses: the
-- node's bytes are mapped, and the place for the copy is mapped, apart from them and, when bytes
-- are asked for, not null.
pub kfs_read_node-readable :
    (n : KfsNode) (offset dst len : ℕ) (w : World)
    → HasBytes w.mem n
    → (0 < len → dst ≢ null)
    → Room w.mem dst (readable n offset len)
    → Apart dst (readable n offset len) n.bytes n.size
    → kfs_read_node (some n) offset dst len w
      ≡ ok
          (readable n offset len)
          (with_mem w (overlay w.mem dst (peek w.mem (n.bytes + offset) (readable n offset len))))
unfolding kfs_read_node peek overlay
kfs_read_node-readable n offset dst len w has ne room apart =
    elim (Bool-cases (node_is_valid (some n))) [
      | inr v ↦ ground arith
      | inl v ↦ elim (Bool-cases (ltb offset n.size)) [
        | inr end ↦ ground arith
        | inl go ↦
            let k = min len (n.size - offset) in
            let e : readable n offset len ≡ k = ground arith in
            ground (
              arith,
              copy_loop-overlay k dst (n.bytes + offset) 0 dst (n.bytes + offset) w (omega arith)
                  (omega arith) (rw e at room) (λ a l u. has v a (omega arith) (ground arith))
                  (λ a l u. ground (arith, apart a l (ground arith))),
            )
      ]
    ]

pub kfs_read_node-none :
    (offset dst len : ℕ) (w : World) → kfs_read_node none offset dst len w ≡ ok 0 w
unfolding kfs_read_node
kfs_read_node-none offset dst len w = refl
