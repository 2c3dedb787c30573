-- ===== src/Fs.antt =====
-- mini-kernel/kernel/fs.c and mini-kernel/kernel/include/kernel/fs.h: the read-only table of files.
-- A pointer to a `const struct kfs_node` is an optional node, `none` for `NULL`. A function that
-- writes through a pointer to a struct of the kernel takes and returns the struct.
pub mod Catalog
pub mod Handles
pub mod Lookup
pub mod Read
pub mod Stat
use mini_isolation_lab.Base.{
  ℕ, zero, suc, ◌+◌, ◌-◌, Bool, true, false, not, ◌&&◌, ◌||◌, Option, none, some, List, [], ◌∷◌,
  ◌++◌, ◌==◌, ◌!=◌, ltb, leb, if◌then◌else◌, is_some, get_elem?,
}
use mini_isolation_lab.Base.Words.{u64, le_bytes32, le_bytes64}
use mini_isolation_lab.Machine.{Addr, null, KfsNode, World, ok, Cmd, pure, ◌>>=◌, ◌>>◌, must, store}
use mini_isolation_lab.KernelLib.{kstrlen, kmem_equal, copy_loop}

-- `enum kfs_error`.
pub data KfsError : Type 0 where
  success : KfsError
  einval : KfsError
  enoent : KfsError

-- `KFS_MODE_FILE`, octal 0100000.
abbrev pub mode_file : ℕ
mode_file = 0x8000

-- `struct kfs_handle`.
pub record KfsHandle : Type 0 where
  pub node : Option KfsNode
  pub offset : ℕ

unfoldable pub node_is_valid : Option KfsNode → Bool
node_is_valid none = false
node_is_valid (some n) =
    if (n.path == null) || (n.mode != mode_file)
    then false
    else if ltb 0 n.size && (n.bytes == null)
    then false
    else true

unfoldable pub kfs_mount : Option (List KfsNode) → ℕ → Cmd (Unit {0})
kfs_mount nodes count w = ok tt (record w { mounted_nodes = nodes; mounted_count = count })

-- The condition of the loop in `kfs_lookup`, whose later parts run only if the earlier ones hold.
node_matches : KfsNode → Addr → ℕ → Cmd Bool
node_matches node path path_len =
    if node_is_valid (some node)
    then (do
      n ← kstrlen node.path
      if n == path_len then kmem_equal node.path path path_len else pure false)
    else pure false

-- From index `i`, with this many rounds left.
lookup_loop : ℕ → List KfsNode → Addr → ℕ → ℕ → Cmd (Option KfsNode)
lookup_loop zero nodes path path_len i = pure none
lookup_loop (suc n) nodes path path_len i = do
  node ← must (get_elem? nodes i)
  found ← node_matches node path path_len
  if found then pure (some node) else lookup_loop n nodes path path_len (i + 1)

lookup_mounted : Option (List KfsNode) → Addr → ℕ → Cmd (Option KfsNode)
unfolding lookup_loop
lookup_mounted none path path_len = pure none
lookup_mounted (some nodes) path path_len = λ w. lookup_loop w.mounted_count nodes path path_len 0 w

pub kfs_lookup : Addr → ℕ → Cmd (Option KfsNode)
unfolding lookup_mounted
kfs_lookup path path_len = if (path == null) || (path_len == 0) then pure none else λ w.
    lookup_mounted w.mounted_nodes path path_len w

pub kfs_open : Addr → Option KfsHandle → Cmd (KfsError × Option KfsHandle)
kfs_open path none = pure (KfsError.einval, none)
kfs_open path (some handle) = if path == null then pure (KfsError.einval, some handle) else do
  n ← kstrlen path
  node ← kfs_lookup path n
  pure (
      if is_some node
      then (KfsError.success, some (record { node = node; offset = 0 }))
      else (KfsError.enoent, some (record { node = none; offset = 0 })))

-- The bytes one after the other from an address on.
pub store_bytes : Addr → List ℕ → Cmd (Unit {0})
store_bytes p [] = pure tt
store_bytes p (b ∷ bs) = do store p b; store_bytes (suc p) bs

-- `sizeof(struct kfs_stat)`: a 64-bit `size`, a 32-bit `mode`, a `bool` and three bytes of padding.
abbrev pub sizeof_stat : ℕ
sizeof_stat = 16

-- The three fields of a `struct kfs_stat` as they stand in memory; the padding is not written.
abbrev pub stat_bytes : ℕ → ℕ → ℕ → List ℕ
stat_bytes size mode is_file = le_bytes64 size ++ (le_bytes32 mode ++ (is_file ∷ []))

pub kfs_stat_node : Option KfsNode → Addr → Cmd KfsError
unfolding store_bytes
kfs_stat_node none out = pure KfsError.einval
kfs_stat_node (some node) out =
    if not (node_is_valid (some node)) || (out == null)
    then pure KfsError.einval
    else do store_bytes out (stat_bytes node.size node.mode 1); pure KfsError.success

pub kfs_stat : Addr → Addr → Cmd KfsError
unfolding store_bytes
kfs_stat path out = if (path == null) || (out == null) then pure KfsError.einval else do
  n ← kstrlen path
  node ← kfs_lookup path n
  if is_some node
      then kfs_stat_node node out
      else do store_bytes out (stat_bytes 0 0 0); pure KfsError.enoent

pub kfs_read_node : Option KfsNode → ℕ → Addr → ℕ → Cmd ℕ
kfs_read_node none offset dst len = pure 0
kfs_read_node (some node) offset dst len =
    if not (node_is_valid (some node)) || (ltb 0 len && (dst == null)) || leb node.size offset
    then pure 0
    else do
      let available = node.size - offset
      let to_copy = if ltb len available then len else available
      copy_loop to_copy dst (node.bytes + offset) 0
      pure to_copy

-- `handle->offset += bytes_read`, and `*out_read = bytes_read` unless `out_read` is `NULL`.
read_handle : KfsHandle → Addr → ℕ → Option ℕ → Cmd (KfsError × Option KfsHandle × Option ℕ)
read_handle handle dst len out_read =
    if not (node_is_valid handle.node) || (ltb 0 len && (dst == null))
    then pure (KfsError.einval, some handle, out_read)
    else do
      bytes_read ← kfs_read_node handle.node handle.offset dst len
      pure (
        KfsError.success,
        some (record handle { offset = u64 (handle.offset + bytes_read) }),
        if is_some out_read then some bytes_read else none,
      )

pub kfs_read : Option KfsHandle → Addr → ℕ → Option ℕ → Cmd (KfsError × Option KfsHandle × Option ℕ)
unfolding read_handle
kfs_read none dst len out_read =
    pure (KfsError.einval, none, if is_some out_read then some 0 else none)
kfs_read (some handle) dst len out_read =
    read_handle handle dst len (if is_some out_read then some 0 else none)
