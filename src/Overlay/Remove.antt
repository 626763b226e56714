-- ===== src/Overlay/Remove.antt =====
-- The handlers `unlink` and `rmdir` of src/overlay.rs, which share `do_rm`.
pub mod Removed
use fuse_overlayfs.Base.{
  ℕ, Bool, true, false, not, ◌&&◌, ◌||◌, Option, none, some, List, [], ◌∷◌, ok, err, FsResult, ◌==◌,
  if◌then◌else◌, ok_or, all, any, nat_key, enoent, enotempty,
}
use fuse_overlayfs.Base.Map.{Map}
use fuse_overlayfs.Config.{OverlayConfig}
use fuse_overlayfs.Datasource.{Bytes}
use fuse_overlayfs.Node.{
  NodeId, OvlNode, NodeArena, Unlink, get_node, update_node, remove_node, contains_node, children,
  remove_child, drop_node,
}
use fuse_overlayfs.Node.Inodes.{
  InodeTable, InodeKey, OvlIno, get_by_key, key_to_fuse_ino, remove_node_id,
}
use fuse_overlayfs.Overlay.{OverlayInner, child_of}
use fuse_overlayfs.Overlay.Lookup.{reload_dir}
use fuse_overlayfs.Overlay.Mount.{
  Mount, Handler, call, reads, looks, find_node, node_of_ino, is_whiteout_or_missing,
}
use fuse_overlayfs.Overlay.Serve.{key_of}
use fuse_overlayfs.Overlay.Upper.{get_node_up, hide_node}
use fuse_overlayfs.Sys.{Sys, at_removedir}
use fuse_overlayfs.Sys.Actions.{Action, pure, raise, lift, ignore, ◌>>=◌, ◌>>◌}

-- `map(|c| c.hidden).unwrap_or(true)`
abbrev pub hidden_or_missing : NodeArena → NodeId → Bool
hidden_or_missing a id = elim (get_node a id) [ none ↦ true | some c ↦ c.hidden ]

abbrev child_ids : Map Bytes NodeId → List NodeId
child_ids [] = []
child_ids ((name, id) ∷ kids) = id ∷ child_ids kids

abbrev pub none_visible : NodeArena → Option (Map Bytes NodeId) → Bool
none_visible a none = true
none_visible a (some kids) = all (hidden_or_missing a) (child_ids kids)

-- Whether a directory has no visible child.
unfoldable pub is_empty_dir : OverlayInner → NodeId → Bool
is_empty_dir s id = elim (get_node s.nodes id) [
  | none ↦ true
  | some n ↦ none_visible s.nodes (children n)
]

-- Another name of the same file is still there.
abbrev survives : OverlayInner → NodeId → Option OvlIno → Bool
survives s id none = false
survives s id (some o) = any (λ k. not (k == id) && contains_node s.nodes k) o.nodes

-- The number whose attributes the kernel must read again.
abbrev stale_ino : OverlayInner → NodeId → InodeKey → Option ℕ → Option ℕ
stale_ino s id key none = none
stale_ino s id key (some fuse_ino) =
    if survives s id (get_by_key s.inodes key) then some fuse_ino else none

abbrev pub drop_inode : OverlayInner → NodeId → Option OvlNode → InodeTable
drop_inode s id none = s.inodes
drop_inode s id (some node) = remove_node_id s.inodes (key_of node) id

abbrev stale_of : OverlayInner → NodeId → Option OvlNode → Option ℕ
stale_of s id none = none
stale_of s id (some node) = stale_ino s id (key_of node) (key_to_fuse_ino s.inodes (key_of node))

abbrev pub calls_of : Option OvlNode → List Unlink
calls_of none = []
calls_of (some node) = drop_node node

-- The node leaves the inode table and the arena.
abbrev pub forget_node : OverlayInner → NodeId → OverlayInner
forget_node s id = record s {
  nodes = (remove_node s.nodes id).0;
  inodes = drop_inode s id (get_node s.nodes id);
}

abbrev pub unlink_name : NodeArena → NodeId → Bytes → NodeArena
unlink_name a pnode_id name = update_node a pnode_id (λ p. (remove_child p name).1)

-- What is left to be done outside: the calls that the dropped node makes, and the stale number.
abbrev pub Rest : Type 0
Rest = List Unlink × Option ℕ

-- The name leaves its parent, and its node the tables.
unfoldable pub remove_entry : OverlayInner → NodeId → Bytes → OverlayInner × Rest
remove_entry s pnode_id name = elim (child_of s.nodes pnode_id name) [
  | none ↦ (record s { nodes = unlink_name s.nodes pnode_id name }, ([], none))
  | some id ↦
      let s' = record s { nodes = unlink_name s.nodes pnode_id name } in
      (forget_node s' id, (calls_of (get_node s'.nodes id), stale_of s' id (get_node s'.nodes id)))
]

module _ {W : Type 0} (sys : Sys W) where
  -- The calls of `drop` on a node, whose results are not looked at.
  unfoldable pub unlink_calls : List Unlink → Action W (Unit {0})
  unlink_calls [] = pure tt
  unlink_calls (u ∷ us) =
      ignore (sys.unlinkat u.dirfd u.path (if u.removedir then at_removedir else 0))
      >> unlink_calls us

  -- `rmdir` loads the directory and refuses it where a child is visible.
  unfoldable pub check_empty : Bool → NodeId → OverlayConfig → Handler W (Unit {0})
  check_empty false id config = pure tt
  check_empty true id config = do
    loaded ← looks sys (λ s. reload_dir s id config.fast_ino_check)
    is_empty ← reads (λ s. is_empty_dir s id)
    (if is_empty then pure tt else raise enotempty)

  -- A node that is found and still there.
  unfoldable pub existing_node : ℕ → Bytes → Handler W NodeId
  existing_node parent name = do
    found ← find_node sys parent (some name)
    id ← lift (ok_or found enoent)
    missing ← reads (λ s. is_whiteout_or_missing s id)
    (if missing then raise enoent else pure id)

  -- The result is the number of which the kernel is told that its attributes have changed.
  unfoldable pub do_rm : ℕ → ℕ → Bytes → Bool → OverlayConfig → Handler W (Option ℕ)
  do_rm rounds parent name is_dir config = do
    node_id ← existing_node parent name
    check_empty is_dir node_id config
    get_node_up sys rounds node_id
    pnode_id ← node_of_ino sys parent
    get_node_up sys rounds pnode_id
    hide_node sys node_id true
    (unlinks, stale) ← looks sys (λ s. remove_entry s pnode_id name)
    call (unlink_calls unlinks)
    pure stale

  unfoldable pub unlink : ℕ → ℕ → Bytes → OverlayConfig → Handler W (Option ℕ)
  unlink rounds parent name config = do_rm rounds parent name false config

  unfoldable pub rmdir : ℕ → ℕ → Bytes → OverlayConfig → Handler W (Option ℕ)
  rmdir rounds parent name config = do_rm rounds parent name true config
