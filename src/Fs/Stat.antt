-- ===== src/Fs/Stat.antt =====
-- What `kfs_stat_node` and `kfs_stat` write: the encoded `struct kfs_stat`.
use mini_isolation_lab.Base.{
  ℕ, suc, ◌+◌, ◌*◌, ◌^◌, ◌<◌, ◌≡◌, ◌≢◌, refl, ap, inl, inr, Bool, true, false, Bool-cases, ltb,
  ◌&&◌, arith, some, List, [], ◌∷◌, ◌++◌, length, ◌∙◌,
}
use mini_isolation_lab.Base.Words.{le_bytes32, le_bytes64}
use mini_isolation_lab.Machine.{Addr, Mem, null, KfsNode, World, Run, ok, with_mem, update}
use mini_isolation_lab.Machine.Memory.{
  SameOutside, overlay-SameOutside, Room, peek, overlay, overlay-append, peek-overlay_prefix,
  peek-overlay_suffix,
}
use mini_isolation_lab.KernelLib.Copy.{store-mapped}
use mini_isolation_lab.Fs.{KfsError, node_is_valid, store_bytes, stat_bytes, kfs_stat_node}

-- A little-endian number from its bytes.
pub le_value : List ℕ → ℕ
le_value [] = 0
le_value (b ∷ bs) = b + 256 * le_value bs

pub le_value_32 : (x : ℕ) → x < 2 ^ 32 → le_value (le_bytes32 x) ≡ x
unfolding le_value
le_value_32 x h = omega arith

pub le_value_64 : (x : ℕ) → x < 2 ^ 64 → le_value (le_bytes64 x) ≡ x
unfolding le_value
le_value_64 x h = omega arith

pub store_bytes-overlay :
    (bs : List ℕ) (p : Addr) (w : World)
    → Room w.mem p (length bs)
    → store_bytes p bs w ≡ ok tt (with_mem w (overlay w.mem p bs))
unfolding store_bytes overlay
store_bytes-overlay [] p w room = refl
store_bytes-overlay (b ∷ bs) p w room =
    let here = room p (omega arith) (omega arith) in
    rw (store-mapped p b w here) (
      store_bytes-overlay bs (suc p) (with_mem w (update w.mem p b))
        (λ a l u. ground (arith, room a (omega arith) (omega arith))))

-- The three fields as a reader of the memory finds them.
pub stat_size : Mem → Addr → ℕ
stat_size m p = le_value (peek m p 8)

pub stat_mode : Mem → Addr → ℕ
stat_mode m p = le_value (peek m (p + 8) 4)

pub stat_is_file : Mem → Addr → ℕ
stat_is_file m p = le_value (peek m (p + 12) 1)

pub kfs_stat_node-overlay :
    (n : KfsNode) (out : Addr) (w : World)
    → node_is_valid (some n) ≡ true
    → out ≢ null
    → Room w.mem out 13
    → kfs_stat_node (some n) out w
      ≡ ok KfsError.success (with_mem w (overlay w.mem out (stat_bytes n.size n.mode 1)))
unfolding kfs_stat_node
kfs_stat_node-overlay n out w v ne room =
    rw v (ground (arith, store_bytes-overlay (stat_bytes n.size n.mode 1) out w room))

-- What was written reads back as the three fields.
stat_fields :
    (m : Mem) (out : Addr) (size mode is_file : ℕ)
    → size < 2 ^ 64
    → mode < 2 ^ 32
    → let m' = overlay m out (stat_bytes size mode is_file) in
      (stat_size m' out ≡ size) × (stat_mode m' out ≡ mode) × (stat_is_file m' out ≡ is_file)
unfolding stat_size stat_mode stat_is_file le_value
stat_fields m out size mode is_file hs hm =
    let tail = le_bytes32 mode ++ (is_file ∷ []) in
    let m8 = overlay m out (le_bytes64 size) in
    (
      ap le_value (peek-overlay_prefix m out (le_bytes64 size) tail) ∙ le_value_64 size hs,
      rw (overlay-append m out (le_bytes64 size) tail) (
          ap le_value (peek-overlay_prefix m8 (out + 8) (le_bytes32 mode) (is_file ∷ []))
          ∙ le_value_32 mode hm),
      ap le_value (peek-overlay_suffix m out (le_bytes64 size ++ le_bytes32 mode) (is_file ∷ []))
          ∙ omega arith,
    )

-- What `kfs_stat_node` does, by whether it accepts the node and the address.
abbrev pub Described : Bool → KfsNode → Addr → World → Run KfsError → Type 0
Described false n out w run = run ≡ ok KfsError.einval w
Described true n out w run =
    (w' : World) × (run ≡ ok KfsError.success w')
    × (stat_size w'.mem out ≡ n.size)
    × (stat_mode w'.mem out ≡ n.mode)
    × (stat_is_file w'.mem out ≡ 1)
    × SameOutside out 13 w.mem w'.mem
    × (w' ≡ with_mem w w'.mem)

kfs_stat_node-refused :
    (n : KfsNode) (out : Addr) (w : World)
    → node_is_valid (some n) && ltb 0 out ≡ false
    → kfs_stat_node (some n) out w ≡ ok KfsError.einval w
unfolding kfs_stat_node
kfs_stat_node-refused n out w bad = ground (arith, bad)

-- `kfs_stat_node` into 13 mapped bytes, of a node whose size is below 2 ^ 64 and whose mode is
-- below 2 ^ 32. A valid node and an address other than null succeed: the memory there is read back
-- as the size and the mode of the node and as a file, and nothing else changes. Otherwise it fails
-- with `KFS_EINVAL` and changes nothing.
pub kfs_stat_node-fields :
    (n : KfsNode) (out : Addr) (w : World)
    → n.size < 2 ^ 64
    → n.mode < 2 ^ 32
    → Room w.mem out 13
    → Described (node_is_valid (some n) && ltb 0 out) n out w (kfs_stat_node (some n) out w)
kfs_stat_node-fields n out w hs hm room = elim (Bool-cases (node_is_valid (some n) && ltb 0 out)) [
  | inr bad ↦ rw bad (kfs_stat_node-refused n out w bad)
  | inl good ↦
      let bs = stat_bytes n.size n.mode 1 in
      let (size, mode, kind) = stat_fields w.mem out n.size n.mode 1 hs hm in
      let (valid, placed) = both n out good in
      rw good (
        with_mem w (overlay w.mem out bs),
        kfs_stat_node-overlay n out w valid placed room,
        size,
        mode,
        kind,
        overlay-SameOutside w.mem out bs room,
        refl,
      )
]
  where
    both :
        (n : KfsNode) (out : Addr)
        → node_is_valid (some n) && ltb 0 out ≡ true
        → (node_is_valid (some n) ≡ true) × (out ≢ null)
    both n out good = (ground (arith, good), λ e. ground (arith, good, e))
