-- ===== src/Overlay.antt =====
-- src/overlay.rs: the state of the overlay, and the helpers that its operations share.
pub mod Load
pub mod Lookup
pub mod Override
pub mod Attr
pub mod Serve
pub mod Mount
pub mod Upper
pub mod Remove
pub mod Create
pub mod CreateFile
pub mod ReadDir
pub mod Relink
pub mod Rename
pub mod Link
pub mod Query
pub mod Consistent
pub mod Reach
pub mod Names
use Prim.Native.Nat.{bit_and}
use fuse_overlayfs.Base.{
  ℕ, Bool, true, false, not, ◌&&◌, Option, none, some, List, [], ◌∷◌, ◌++◌, ok, err, FsResult, ◌==◌,
  if◌then◌else◌, codes, bytes_eq, starts_with, drop, get_elem?, ok_or, enoent, erofs, find,
}
use fuse_overlayfs.Mapping.{IdMapping, OverflowIds}
use fuse_overlayfs.Datasource.{Bytes, Stat, DataSource}
use fuse_overlayfs.Layer.{OvlLayer}
use fuse_overlayfs.Node.{
  NodeId, OvlNode, NodeArena, s_ifmt, s_ifdir, insert_node, get_node, update_node, contains_node,
  get_child, insert_child, is_whiteout,
}
use fuse_overlayfs.Node.Inodes.{InodeTable, OvlIno, fuse_to_ino}
use fuse_overlayfs.Xattr.{opaque_whiteout}

pub record OverlayInner : Type 0 where
  pub layers : List OvlLayer
  pub inodes : InodeTable
  pub nodes : NodeArena
  pub root_id : NodeId
  pub workdir_fd : ℕ
  pub ino_passthrough : Bool
  pub overflow : OverflowIds
  pub wd_counter : ℕ
  pub can_mknod : Bool

abbrev pub file_type : ℕ → ℕ
file_type mode = bit_and mode s_ifmt

abbrev s_ifchr : ℕ
s_ifchr = 0o020000

abbrev pub is_dir_mode : ℕ → Bool
is_dir_mode mode = file_type mode == s_ifdir

-- `self.nodes.get(&id).and_then(|p| p.get_child(name))`
unfoldable pub child_of : NodeArena → NodeId → Bytes → Option NodeId
child_of a id name = elim (get_node a id) [ none ↦ none | some p ↦ get_child p name ]

-- `self.nodes.get(&id).map(|p| p.is_whiteout(name)).unwrap_or(false)`
unfoldable pub whiteout_in : NodeArena → NodeId → Bytes → Bool
whiteout_in a id name = elim (get_node a id) [ none ↦ false | some p ↦ is_whiteout p name ]

unfoldable pub insert_child_node : NodeArena → NodeId → OvlNode → NodeArena × NodeId
insert_child_node a parent_id child =
    let (a', child_id) = insert_node a child in
    (update_node a' parent_id (λ p. (insert_child p child.name child_id).1), child_id)

abbrev pub wh_prefix : Bytes
wh_prefix = codes ".wh."

-- The path of the whiteout file of `name`.
abbrev pub wh_path : Bytes → Bytes → Bytes
wh_path parent_path name =
    (if bytes_eq parent_path (codes ".") then wh_prefix else parent_path ++ (b'/' ∷ wh_prefix))
    ++ name

abbrev is_ok_true : FsResult Bool → Bool
is_ok_true (ok b) = b
is_ok_true (err e) = false

unfoldable pub is_wh_file : DataSource → Bytes → Bytes → Bool
is_wh_file ds parent_path name = is_ok_true (ds.file_exists (wh_path parent_path name))

unfoldable pub wh_prefix_name : Bytes → Option Bytes
wh_prefix_name name =
    if starts_with name wh_prefix && not (bytes_eq name opaque_whiteout)
    then some (drop 4 name)
    else none

unfoldable pub is_chardev_whiteout : Stat → Bool
is_chardev_whiteout st =
    (file_type st.st_mode == s_ifchr) && (st.st_rdev.major == 0) && (st.st_rdev.minor == 0)

abbrev first_live : NodeArena → Option OvlIno → Option NodeId
first_live a none = none
first_live a (some o) = find (contains_node a) o.nodes

-- The root's number is 1. A removed hardlink's node is passed over.
unfoldable pub lookup_node_id : OverlayInner → ℕ → Option NodeId
lookup_node_id s ino =
    if ino == 1 then some s.root_id else first_live s.nodes (fuse_to_ino s.inodes ino)

unfoldable pub layer : OverlayInner → ℕ → FsResult OvlLayer
layer s idx = ok_or (get_elem? s.layers idx) enoent

abbrev pub writable : List OvlLayer → Option OvlLayer
writable [] = none
writable (l ∷ rest) = if l.low then none else some l

-- `upper_layer`: the first layer, unless it is read-only.
unfoldable pub upper_layer : OverlayInner → Option OvlLayer
upper_layer s = writable s.layers

unfoldable pub upper : OverlayInner → FsResult OvlLayer
unfolding upper_layer
upper s = ok_or (upper_layer s) erofs
