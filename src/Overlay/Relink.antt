-- ===== src/Overlay/Relink.antt =====
-- What `rename` of src/overlay.rs does in memory: two names change places, or one node gets a new
-- name and the node that had it before goes.
pub mod Moved
pub mod Exchanged
use fuse_overlayfs.Base.{Bool, false, Option, none, some, ok, err, FsResult, if◌then◌else◌, eio}
use fuse_overlayfs.Datasource.{Bytes}
use fuse_overlayfs.Node.{
  NodeId, OvlNode, NodeArena, get_node, update_node, is_dir, mark_unloaded, insert_child,
  remove_child,
}
use fuse_overlayfs.Node.Hash.{fnv1a_name_hash}
use fuse_overlayfs.Overlay.{OverlayInner, child_of}
use fuse_overlayfs.Overlay.Remove.{forget_node}

abbrev pub is_dir_node : NodeArena → NodeId → Bool
is_dir_node a id = elim (get_node a id) [ none ↦ false | some n ↦ is_dir n ]

-- The new name and parent of a node.
abbrev pub renamed : Bytes → Option NodeId → OvlNode → OvlNode
renamed name parent n = record n { name = name; name_hash = fnv1a_name_hash name; parent = parent }

-- A directory is read again under its new name.
abbrev unload_dir : OvlNode → OvlNode
unload_dir n = if is_dir n then mark_unloaded n else n

abbrev pub unlinked : NodeId → Bytes → NodeArena → NodeArena
unlinked parent_id name a = update_node a parent_id (λ p. (remove_child p name).1)

abbrev pub linked : NodeId → Bytes → NodeId → NodeArena → NodeArena
linked parent_id name id a = update_node a parent_id (λ p. (insert_child p name id).1)

abbrev pub unloaded : NodeId → NodeArena → NodeArena
unloaded id a = update_node a id mark_unloaded

-- The arena after two names have changed places: `s` and `d` are the nodes that had them.
abbrev exchange_nodes :
    NodeId → Bytes → NodeId → Bytes → NodeId → OvlNode → NodeId → OvlNode → NodeArena → NodeArena
exchange_nodes sparent_id name dparent_id newname sid s did d a =
    let b = update_node a sid (λ n. unload_dir (renamed d.name d.parent n)) in
    let c = update_node b did (λ n. unload_dir (renamed s.name s.parent n)) in
    linked sparent_id name did (linked dparent_id newname sid c)

-- The exchange in memory: EIO where a child or its node is missing.
unfoldable pub exchange :
    NodeId → Bytes → NodeId → Bytes → NodeArena → NodeArena × FsResult (Unit {0})
exchange sparent_id name dparent_id newname a =
    let b = unlinked sparent_id name a in
    let c = unlinked dparent_id newname b in
    elim (child_of a sparent_id name) [
      | none ↦ (c, err eio)
      | some sid ↦ elim (child_of b dparent_id newname) [
        | none ↦ (c, err eio)
        | some did ↦ elim (get_node c sid) [
          | none ↦ (c, err eio)
          | some s ↦ elim (get_node c did) [
            | none ↦ (c, err eio)
            | some d ↦ (exchange_nodes sparent_id name dparent_id newname sid s did d c, ok tt)
          ]
        ]
      ]
    ]

-- The move in memory: the child of the old name gets the new one.
unfoldable pub move_child : NodeId → Bytes → NodeId → Bytes → NodeArena → NodeArena
move_child sparent_id name dparent_id newname a = elim (child_of a sparent_id name) [
  | none ↦ unlinked sparent_id name a
  | some id ↦
      linked dparent_id newname id
        (update_node (unlinked sparent_id name a) id (renamed newname (some dparent_id)))
]

-- The node that a move replaces.
unfoldable pub replaced : NodeId → Bytes → NodeId → OverlayInner → OverlayInner
replaced dparent_id newname dst_id s =
    forget_node (record s { nodes = unlinked dparent_id newname s.nodes }) dst_id
