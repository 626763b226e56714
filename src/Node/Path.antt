-- ===== src/Node/Path.antt =====
-- `compute_path` of src/node.rs: the path of a node, by walking the parent links.
pub mod Depth
pub mod Correct
use fuse_overlayfs.Base.{
  ℕ, zero, suc, Option, none, some, List, [], ◌∷◌, ◌++◌, length, is_empty, nat_key, codes, bytes_eq,
  if◌then◌else◌,
}
use fuse_overlayfs.Base.Map
use fuse_overlayfs.Base.Map.{Map}
use fuse_overlayfs.Base.Text.{join}
use fuse_overlayfs.Datasource.{Bytes}
use fuse_overlayfs.Node.{NodeId, OvlNode, NodeArena}

-- The loop: `parts` holds the names met so far, the topmost first. `none` means that the fuel
-- ran out. At the root with no name met the path is ".".
unfoldable pub walk_up : ℕ → Map NodeId OvlNode → NodeId → List Bytes → Option Bytes
walk_up zero m id parts = none
walk_up (suc f) m id parts = elim (Map.get id m) [
  | none ↦ some (join b'/' parts)
  | some node ↦ elim node.parent [
    | none ↦ some (if is_empty parts then codes "." else join b'/' parts)
    | some pid ↦ walk_up f m pid (node.name ∷ parts)
  ]
]

abbrev or_empty : Option Bytes → Bytes
or_empty none = []
or_empty (some p) = p

-- A walk that does not turn in a circle passes each node of the arena once, so this fuel is enough.
unfoldable pub compute_path : NodeArena → NodeId → Bytes
unfolding walk_up
compute_path a id = or_empty (walk_up (suc (length a.map)) a.map id [])

-- `OverlayInner::child_path` of src/overlay.rs
unfoldable pub child_path : Bytes → Bytes → Bytes
child_path parent_path name =
    if bytes_eq parent_path (codes ".") then name else parent_path ++ (b'/' ∷ name)
