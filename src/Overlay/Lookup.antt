-- ===== src/Overlay/Lookup.antt =====
-- `do_lookup_file`, `do_lazy_lookup`, `reload_dir` and the registration of a new child in
-- src/overlay.rs.
pub mod Agree
pub mod Insert
pub mod Linked
use fuse_overlayfs.Base.{
  ℕ, suc, Bool, true, false, not, ◌&&◌, ◌||◌, Option, none, some, List, [], ◌∷◌, ok, err, FsResult,
  ◌==◌, if◌then◌else◌, codes, enoent, enotdir, eacces,
}
use fuse_overlayfs.Datasource.{Bytes, Stat, DataSource, statx_type_mode_ino, at_symlink_nofollow}
use fuse_overlayfs.Layer.{OvlLayer}
use fuse_overlayfs.Node.{
  NodeId, OvlNode, NodeArena, new_node, is_loaded, mark_loaded, insert_child, insert_node, get_node,
  update_node, contains_node,
}
use fuse_overlayfs.Node.Path.{compute_path, child_path}
use fuse_overlayfs.Node.Inodes.{InodeTable, InodeKey, register, inc_lookup}
use fuse_overlayfs.Whiteout.{is_directory_opaque}
use fuse_overlayfs.Overlay.{
  OverlayInner, is_dir_mode, child_of, whiteout_in, is_wh_file, wh_prefix_name, is_chardev_whiteout,
  lookup_node_id,
}
use fuse_overlayfs.Overlay.Load.{add_whiteout, stops_at, is_opaque, load_dir_impl}

-- The arena, and the node that is found.
abbrev pub Found : Type 0
Found = NodeArena × Option OvlNode

abbrev pub is_missing : ℕ → Bool
is_missing e = e == enoent || e == enotdir || e == eacces

-- The node of a name whose highest entry is in this layer.
unfoldable pub found_node : NodeId → Bytes → ℕ → Stat → OvlNode
found_node parent_id name layer_idx st =
    record (new_node name layer_idx st.st_ino st.st_dev (is_dir_mode st.st_mode)) {
      mode = st.st_mode;
      last_layer_idx = layer_idx;
      parent = some parent_id;
    }

-- A lower entry of the same name replaces the inode number, and extends the range of layers.
abbrev pub merge_lower : OvlNode → ℕ → Stat → OvlNode
merge_lower existing layer_idx st = record existing {
  tmp_ino = st.st_ino;
  tmp_dev = st.st_dev;
  last_layer_idx = layer_idx;
}

-- The first entry of the name, in a layer where the look-up of the name succeeds.
unfoldable pub lazy_first :
    DataSource
    → NodeId
    → Bytes
    → Bytes
    → ℕ
    → Stat
    → (Option OvlNode → Bool → NodeArena → Found)
    → Bool
    → NodeArena
    → Found
lazy_first ds parent_id parent_path name layer_idx st more stop a =
    if is_wh_file ds parent_path name
    then (add_whiteout a parent_id name, none)
    else elim (wh_prefix_name name) [
      | some whited ↦ (add_whiteout a parent_id whited, none)
      | none ↦
          if is_chardev_whiteout st
          then (add_whiteout a parent_id name, none)
          else more (some (found_node parent_id name layer_idx st))
              (stop
                || (is_dir_mode st.st_mode
                    && is_opaque (is_directory_opaque ds (child_path parent_path name))))
              a
    ]

-- One round: what `statat` says of the name, and what is found so far. `more` is the rest.
abbrev pub lazy_layer :
    DataSource
    → NodeId
    → Bytes
    → Bytes
    → ℕ
    → FsResult Stat
    → Option OvlNode
    → (Option OvlNode → Bool → NodeArena → Found)
    → Bool
    → NodeArena
    → Found
lazy_layer ds parent_id parent_path name layer_idx (err e) (some existing) more stop a =
    if is_missing e then more (some existing) stop a else (a, none)
lazy_layer ds parent_id parent_path name layer_idx (err e) none more stop a =
    if is_missing e
    then if is_wh_file ds parent_path name
      then (add_whiteout a parent_id name, none)
      else more none stop a
    else (a, none)
lazy_layer ds parent_id parent_path name layer_idx (ok st) (some existing) more stop a =
    more (some (merge_lower existing layer_idx st)) stop a
lazy_layer ds parent_id parent_path name layer_idx (ok st) none more stop a =
    lazy_first ds parent_id parent_path name layer_idx st more stop a

-- The loop over the layers, from the index `layer_idx` on.
unfoldable pub lazy_loop :
    ℕ → NodeId → Bytes → Bytes → ℕ → List OvlLayer → Option OvlNode → Bool → NodeArena → Found
lazy_loop last parent_id parent_path name layer_idx [] found stop a = (a, found)
lazy_loop last parent_id parent_path name layer_idx (l ∷ rest) found true a = (a, found)
lazy_loop last parent_id parent_path name layer_idx (l ∷ rest) found false a =
    lazy_layer l.ds parent_id parent_path name layer_idx
      (l.ds.statat (child_path parent_path name) at_symlink_nofollow statx_type_mode_ino) found
      (λ found' stop' a'.
        lazy_loop last parent_id parent_path name (suc layer_idx) rest found' stop' a')
      (stops_at (some last) layer_idx) a

abbrev or_same : InodeTable → Option (InodeTable × ℕ) → InodeTable
or_same t none = t
or_same t (some (t', f)) = t'

-- The node gets an identifier and an inode number, and is put under its parent. The look-up fails
-- if the parent is missing by then.
unfoldable pub insert_found : OverlayInner → NodeId → OvlNode → OverlayInner × Option NodeId
insert_found s parent_id child =
    let (a, child_id) = insert_node s.nodes child in
    let registered =
      if child.tmp_ino == 0
      then s.inodes
      else or_same s.inodes (register s.inodes a child_id child.tmp_ino child.tmp_dev child.mode) in
    (
      record s {
        nodes = update_node a parent_id (λ p. (insert_child p child.name child_id).1);
        inodes = registered;
      },
      if contains_node a parent_id then some child_id else none,
    )

abbrev finish_lazy : OverlayInner → NodeId → Found → OverlayInner × Option NodeId
finish_lazy s parent_id (a, none) = (record s { nodes = a }, none)
finish_lazy s parent_id (a, some child) = insert_found (record s { nodes = a }) parent_id child

unfoldable pub do_lazy_lookup : OverlayInner → NodeId → Bytes → OverlayInner × Option NodeId
do_lazy_lookup s parent_id name = elim (get_node s.nodes parent_id) [
  | none ↦ (s, none)
  | some parent ↦ finish_lazy s parent_id (
      lazy_loop parent.last_layer_idx parent_id (compute_path s.nodes parent_id) name 0 s.layers
        none false s.nodes)
]

abbrev loaded_or_missing : Option OvlNode → Bool
loaded_or_missing none = true
loaded_or_missing (some n) = is_loaded n

-- The part of `do_lookup_file` with a name.
unfoldable pub lookup_child : OverlayInner → NodeId → Bytes → OverlayInner × Option NodeId
lookup_child s parent_id name = elim (child_of s.nodes parent_id name) [
  | some child_id ↦ (s, some child_id)
  | none ↦
      if whiteout_in s.nodes parent_id name || loaded_or_missing (get_node s.nodes parent_id)
      then (s, none)
      else do_lazy_lookup s parent_id name
]

unfoldable pub do_lookup_file : OverlayInner → ℕ → Option Bytes → OverlayInner × Option NodeId
do_lookup_file s parent_ino name = elim (lookup_node_id s parent_ino) [
  | none ↦ (s, none)
  | some parent_id ↦ elim name [ none ↦ (s, some parent_id) | some n ↦ lookup_child s parent_id n ]
]

-- `fast_ino_check` is the one option that is read.
unfoldable pub load_dir_entries : OverlayInner → NodeId → Bytes → Bool → OverlayInner
load_dir_entries s parent_id path fast_ino_check =
    load_dir_impl s parent_id path none fast_ino_check

unfoldable pub ensure_root_loaded : OverlayInner → Bool → OverlayInner
ensure_root_loaded s fast_ino_check =
    if loaded_or_missing (get_node s.nodes s.root_id)
    then s
    else load_dir_entries s s.root_id (codes ".") fast_ino_check

unfoldable pub reload_dir : OverlayInner → NodeId → Bool → OverlayInner × Bool
reload_dir s node_id fast_ino_check = elim (get_node s.nodes node_id) [
  | none ↦ (s, true)
  | some n ↦ if is_loaded n then (s, true) else (
    load_dir_impl s node_id (compute_path s.nodes node_id) (some n.last_layer_idx) fast_ino_check,
    true,
  )
]

abbrev loaded_if : Bool → OvlNode → OvlNode
loaded_if true n = mark_loaded n
loaded_if false n = n

abbrev created_node : NodeId → Bytes → Stat → Bool → OvlNode
created_node parent_id name st is_dir =
    loaded_if is_dir (record (new_node name 0 st.st_ino st.st_dev is_dir) {
      parent = some parent_id;
      mode = st.st_mode;
    })

-- A node that has just been created on the upper layer: its identifier and inode number.
unfoldable pub create_and_register_child :
    OverlayInner → NodeId → Bytes → Stat → Bool → OverlayInner × Option (NodeId × ℕ)
create_and_register_child s parent_id name st is_dir =
    let (a, child_id) = insert_node s.nodes (created_node parent_id name st is_dir) in
    elim (register s.inodes a child_id st.st_ino st.st_dev st.st_mode) [
      | none ↦ (record s { nodes = a }, none)
      | some (t, fuse_ino) ↦ (
        record s {
          nodes = update_node a parent_id (λ p. (insert_child p name child_id).1);
          inodes = inc_lookup t (record { ino = st.st_ino; dev = st.st_dev });
        },
        if contains_node a parent_id then some (child_id, fuse_ino) else none,
      )
    ]
