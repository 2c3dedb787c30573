-- ===== src/Fs/Catalog.antt =====
-- The abstract view of the file table: entries with their names, searched in order.
use mini_isolation_lab.Base.{
  ℕ, ◌-◌, ◌<◌, ◌≡◌, true, ◌&&◌, Option, none, some, List, [], ◌∷◌, min, map, length, ltb,
  if◌then◌else◌, bytes_eq,
}
use mini_isolation_lab.Machine.{KfsNode, World}
use mini_isolation_lab.Machine.Memory.{CString}
use mini_isolation_lab.Fs.{node_is_valid}

-- A node with the text that its `path` points at.
pub record Entry : Type 0 where
  pub node : KfsNode
  pub name : List ℕ

-- The first valid node with the name.
unfoldable pub find : List Entry → List ℕ → Option KfsNode
find [] key = none
find (e ∷ es) key =
    if node_is_valid (some e.node) && bytes_eq e.name key then some e.node else find es key

-- A valid node's path is a string that the fuel suffices to walk.
abbrev pub IsNamed : World → Entry → Type 0
IsNamed w e =
    node_is_valid (some e.node) ≡ true → CString w.mem e.node.path e.name × (length e.name < w.fuel)

abbrev pub AllNamed : World → List Entry → Type 0
AllNamed w [] = Unit {0}
AllNamed w (e ∷ es) = IsNamed w e × AllNamed w es

-- The mounted table is this catalog.
pub record IsMounted (w : World) (es : List Entry) : Type 0 where
  pub nodes : w.mounted_nodes ≡ some (map (λ e. e.node) es)
  pub count : w.mounted_count ≡ length es
  pub named : AllNamed w es

-- How many bytes a read at the offset gives.
abbrev pub readable : KfsNode → ℕ → ℕ → ℕ
readable n offset len =
    if node_is_valid (some n) && ltb offset n.size then min len (n.size - offset) else 0
