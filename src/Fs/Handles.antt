-- ===== src/Fs/Handles.antt =====
-- The interface by handles: `kfs_open`, `kfs_read` and `kfs_stat`.
use mathlib.Core.Path.{subst}
use mathlib.Core.Option.{some-injective}
use mini_isolation_lab.Fs.Stat.{store_bytes-overlay, kfs_stat_node-overlay}
use mini_isolation_lab.Fs.{kfs_stat, stat_bytes}
use mini_isolation_lab.Base.{[], ◌∷◌, Bool-cases, ◌&&◌, bytes_eq}
use mini_isolation_lab.Base.{
  ℕ, ◌+◌, ◌<◌, ◌≡◌, ◌≢◌, ap, true, arith, inl, inr, Option, none, some, List, length, ◌==◌, ◌∙◌,
  if◌then◌else◌, is_some, Option-cases,
}
use mini_isolation_lab.Base.Words.{u64}
use mini_isolation_lab.Machine.{Addr, null, KfsNode, World, ok, with_mem}
use mini_isolation_lab.Machine.Memory.{Room, Apart, CString, peek, overlay}
use mini_isolation_lab.KernelLib.Strings.{kstrlen-CString, CString-Room, peek-CString}
use mini_isolation_lab.Fs.{
  KfsError, KfsHandle, node_is_valid, kfs_lookup, kfs_open, kfs_read, read_handle,
}
use mini_isolation_lab.Fs.Catalog.{Entry, find, IsMounted, readable}
use mini_isolation_lab.Fs.Lookup.{kfs_lookup-find}
use mini_isolation_lab.Fs.Read.{HasBytes, kfs_read_node-readable}

-- What a lookup of a text gives.
abbrev pub found : List Entry → List ℕ → Option KfsNode
found es name = if length name == 0 then none else find es name

pub kfs_lookup-CString :
    (es : List Entry) (path : Addr) (name : List ℕ) (w : World)
    → IsMounted w es
    → path ≢ null
    → CString w.mem path name
    → kfs_lookup path (length name) w ≡ ok (found es name) w
kfs_lookup-CString es path name w mounted ne text =
    kfs_lookup-find es path (length name) w mounted ne (CString-Room w.mem path name text)
    ∙ ap (λ key. ok (if length name == 0 then none else find es key) w)
        (peek-CString w.mem path name text)

-- On a mounted catalog `kfs_open` at a text other than null, with fuel for its length: the handle
-- is at the start of the file of that name, or cleared when there is none, and nothing else
-- changes.
pub kfs_open-found :
    (es : List Entry) (path : Addr) (name : List ℕ) (h : KfsHandle) (w : World)
    → IsMounted w es
    → path ≢ null
    → CString w.mem path name
    → length name < w.fuel
    → kfs_open path (some h) w
      ≡ ok
          (
            if is_some (found es name) then KfsError.success else KfsError.enoent,
            some (record { node = found es name; offset = 0 }),
          )
          w
unfolding kfs_open
kfs_open-found es path name h w mounted ne text fuel = elim (Option-cases (found es name)) [
  | inl e ↦ ground (
    arith,
    kstrlen-CString path name w ne text fuel,
    kfs_lookup-CString es path name w mounted ne text,
    e,
  )
  | inr (n, e) ↦ ground (
    arith,
    kstrlen-CString path name w ne text fuel,
    kfs_lookup-CString es path name w mounted ne text,
    e,
  )
]

-- `kfs_read` through a handle on a valid file: the bytes from the handle's offset on arrive at
-- `dst`, the handle moves behind them, and their number is reported where it was asked for.
-- Hypotheses: the file's bytes are mapped, and the place for the copy is mapped, not null and
-- apart from them.
pub kfs_read-readable :
    (n : KfsNode) (offset dst len : ℕ) (out_read : Option ℕ) (w : World)
    → node_is_valid (some n) ≡ true
    → HasBytes w.mem n
    → dst ≢ null
    → Room w.mem dst (readable n offset len)
    → Apart dst (readable n offset len) n.bytes n.size
    → let k = readable n offset len in
      kfs_read (some (record { node = some n; offset = offset })) dst len out_read w
      ≡ ok
          (
            KfsError.success,
            some (record { node = some n; offset = u64 (offset + k) }),
            if is_some out_read then some k else none,
          )
          (with_mem w (overlay w.mem dst (peek w.mem (n.bytes + offset) k)))
unfolding kfs_read read_handle
kfs_read-readable n offset dst len out_read w v has ne room apart =
    let r = kfs_read_node-readable n offset dst len w has (λ _. ne) room apart in
    elim (Option-cases out_read) [
      | inl e ↦ ground (arith, v, r, e)
      | inr (m, e) ↦ ground (arith, v, r, e)
    ]

-- A file that is found is valid.
find-valid :
    (es : List Entry) (key : List ℕ) (n : KfsNode)
    → find es key ≡ some n
    → node_is_valid (some n) ≡ true
unfolding find
find-valid [] key n e = cc
find-valid (x ∷ es) key n e =
    elim (Bool-cases (node_is_valid (some x.node) && bytes_eq x.name key)) [
      | inl hit ↦
          let same = some-injective x.node n (rw hit at e) in
          subst (λ k. node_is_valid (some k) ≡ true) same (ground (arith, hit))
      | inr miss ↦ find-valid es key n (rw miss at e)
    ]

found-valid :
    (es : List Entry) (name : List ℕ) (n : KfsNode)
    → found es name ≡ some n
    → node_is_valid (some n) ≡ true
found-valid es name n e = elim (Bool-cases (length name == 0)) [
  | inl empty ↦ absurd (ground (arith, e, empty))
  | inr some_bytes ↦ find-valid es name n (rw some_bytes at e)
]

-- The struct that a path leaves behind.
abbrev pub stat_of : Option KfsNode → List ℕ
stat_of none = stat_bytes 0 0 0
stat_of (some n) = stat_bytes n.size n.mode 1

-- On a mounted catalog `kfs_stat` of a text other than null, with fuel for its length, into mapped
-- memory at an address other than null: the size, mode and kind of the file of that name stand
-- there, or zeros when there is none, which the result says; nothing else changes.
pub kfs_stat-found :
    (es : List Entry) (path out : Addr) (name : List ℕ) (w : World)
    → IsMounted w es
    → path ≢ null
    → CString w.mem path name
    → length name < w.fuel
    → out ≢ null
    → Room w.mem out 13
    → kfs_stat path out w
      ≡ ok
          (if is_some (found es name) then KfsError.success else KfsError.enoent)
          (with_mem w (overlay w.mem out (stat_of (found es name))))
unfolding kfs_stat
kfs_stat-found es path out name w mounted ne text fuel ne' room =
    let measured = kstrlen-CString path name w ne text fuel in
    let looked_up = kfs_lookup-CString es path name w mounted ne text in
    elim (Option-cases (found es name)) [
      | inl e ↦
          ground (arith, measured, looked_up, e, store_bytes-overlay (stat_bytes 0 0 0) out w room)
      | inr (n, e) ↦ ground (
        arith,
        measured,
        looked_up,
        e,
        kfs_stat_node-overlay n out w (found-valid es name n e) ne' room,
      )
    ]
