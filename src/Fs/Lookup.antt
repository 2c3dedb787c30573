-- ===== src/Fs/Lookup.antt =====
-- `kfs_lookup` beside the search of the catalog.
use mini_isolation_lab.Base.{
  ℕ, suc, ◌+◌, ◌≡◌, ◌≢◌, refl, ap, sym, true, false, ◌&&◌, arith, inl, inr, none, some, List, [],
  ◌∷◌, map, length, Bool-cases, ◌==◌, ◌∙◌, bytes_eq, get_elem?, if◌then◌else◌,
}
use mini_isolation_lab.Machine.{Addr, null, KfsNode, World, ok}
use mini_isolation_lab.Machine.Memory.{Room, peek, length-peek}
use mini_isolation_lab.KernelLib.Strings.{
  kstrlen-CString, kmem_equal-bytes_eq, peek-CString, CString-Room,
}
use mini_isolation_lab.Fs.{node_is_valid, node_matches, lookup_loop, lookup_mounted, kfs_lookup}
use mini_isolation_lab.Fs.Catalog.{Entry, find, IsNamed, AllNamed, IsMounted}

bytes_eq-length : (xs ys : List ℕ) → length xs ≢ length ys → bytes_eq xs ys ≡ false
bytes_eq-length [] [] h = absurd (h refl)
bytes_eq-length [] (y ∷ ys) h = refl
bytes_eq-length (x ∷ xs) [] h = refl
bytes_eq-length (x ∷ xs) (y ∷ ys) h = ground (arith, bytes_eq-length xs ys (λ e. h (ap suc e)))

valid-path : (n : KfsNode) → node_is_valid (some n) ≡ true → n.path ≢ null
unfolding node_is_valid
valid-path n h = ground arith

module _ {w : World} (path : Addr) (len : ℕ) (ne : path ≢ null) (room : Room w.mem path len) where
  node_matches-valid :
      (e : Entry)
      → IsNamed w e
      → node_is_valid (some e.node) ≡ true
      → node_matches e.node path len w ≡ ok (bytes_eq e.name (peek w.mem path len)) w
  unfolding node_matches
  node_matches-valid e named v =
      let (text, fuel) = named v in
      rw (v, kstrlen-CString e.node.path e.name w (valid-path e.node v) text fuel)
        (elim (Bool-cases (length e.name == len)) [
          | inl same ↦
              let eq : length e.name ≡ len = ground arith in
              rw same (
                kmem_equal-bytes_eq e.node.path path len w (valid-path e.node v) ne
                  (rw (← eq) (CString-Room w.mem e.node.path e.name text)) room
                ∙ ap (λ bs. ok (bytes_eq bs (peek w.mem path len)) w)
                    (ap (peek w.mem e.node.path) (sym eq)
                      ∙ peek-CString w.mem e.node.path e.name text))
          | inr other ↦
              rw (
                other,
                bytes_eq-length e.name (peek w.mem path len) (rw length-peek (ground arith)),
              )
        ])

  node_matches-find :
      (e : Entry)
      → IsNamed w e
      → node_matches e.node path len w
        ≡ ok (node_is_valid (some e.node) && bytes_eq e.name (peek w.mem path len)) w
  unfolding node_matches
  node_matches-find e named = elim (Bool-cases (node_is_valid (some e.node))) [
    | inl v ↦ node_matches-valid e named v ∙ rw v
    | inr v ↦ rw v
  ]

  lookup_loop-find :
      (es : List Entry) (nodes : List KfsNode) (i : ℕ)
      → ((j : ℕ) → get_elem? nodes (i + j) ≡ get_elem? (map (λ e. e.node) es) j)
      → AllNamed w es
      → lookup_loop (length es) nodes path len i w ≡ ok (find es (peek w.mem path len)) w
  unfolding lookup_loop find
  lookup_loop-find [] nodes i h named = refl
  lookup_loop-find (e ∷ es) nodes i h named =
      let here : get_elem? nodes i ≡ some e.node = ap (get_elem? nodes) (omega arith) ∙ h 0 in
      let key = peek w.mem path len in
      rw (here, node_matches-find e named.0)
        (elim (Bool-cases (node_is_valid (some e.node) && bytes_eq e.name key)) [
          | inl hit ↦ rw hit
          | inr miss ↦ rw miss (
              lookup_loop-find es nodes (i + 1)
                (λ j. ap (get_elem? nodes) (omega arith) ∙ h (suc j)) named.1)
        ])

-- On a mounted catalog `kfs_lookup` of a mapped path other than null returns the first valid node
-- whose name is the bytes at `path`, nothing for an empty path, and changes nothing.
pub kfs_lookup-find :
    (es : List Entry) (path : Addr) (len : ℕ) (w : World)
    → IsMounted w es
    → path ≢ null
    → Room w.mem path len
    → kfs_lookup path len w ≡ ok (if len == 0 then none else find es (peek w.mem path len)) w
unfolding kfs_lookup lookup_mounted
kfs_lookup-find es path len w mounted ne room = ground (
  arith,
  mounted.nodes,
  mounted.count,
  lookup_loop-find {w = w} path len ne room es (map (λ e. e.node) es) 0
      (λ j. ap (get_elem? (map (λ e. e.node) es)) (omega arith)) mounted.named,
)

-- An empty path is not found, whatever it points at.
pub kfs_lookup-empty :
    (path : Addr) (len : ℕ) (w : World) → (len == 0) ≡ true → kfs_lookup path len w ≡ ok none w
unfolding kfs_lookup
kfs_lookup-empty path len w e = elim (Bool-cases (path == null)) [
  | inl p ↦ rw (e, p)
  | inr p ↦ rw (e, p)
]
