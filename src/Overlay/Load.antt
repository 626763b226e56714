-- ===== src/Overlay/Load.antt =====
-- `load_dir_impl` of src/overlay.rs: the merge of a directory's entries over all layers.
pub mod Writes
pub mod Fate
pub mod Entry
pub mod Entries
pub mod View
use fuse_overlayfs.Base.{
  ℕ, suc, ◌<◌, Bool, true, false, not, ◌&&◌, ◌||◌, Option, none, some, List, [], ◌∷◌, ok, err,
  FsResult, ◌==◌, ltb, if◌then◌else◌, codes, bytes_eq, enoent, enotdir,
}
use fuse_overlayfs.Datasource.{
  Bytes, Stat, DirEntry, DataSource, dt_unknown, dt_chr, dt_dir, statx_type, statx_type_mode_ino,
  at_symlink_nofollow,
}
use fuse_overlayfs.Layer.{OvlLayer}
use fuse_overlayfs.Node.{
  NodeId, OvlNode, NodeArena, s_ifdir, new_node, update_node, insert_whiteout, mark_loaded,
}
use fuse_overlayfs.Node.Path.{child_path}
use fuse_overlayfs.Xattr.{opaque_whiteout}
use fuse_overlayfs.Whiteout.{is_directory_opaque}
use fuse_overlayfs.Overlay.{
  OverlayInner, is_dir_mode, child_of, whiteout_in, insert_child_node, is_wh_file, wh_prefix_name,
  is_chardev_whiteout,
}

-- The names that are passed over: ".", ".." and the sentinel of an opaque directory.
abbrev pub is_special : Bytes → Bool
is_special name =
    bytes_eq name (codes ".") || bytes_eq name (codes "..") || bytes_eq name opaque_whiteout

abbrev pub add_whiteout : NodeArena → NodeId → Bytes → NodeArena
add_whiteout a parent_id name = update_node a parent_id (λ p. insert_whiteout p name)

abbrev stat_says_whiteout : FsResult Stat → Bool
stat_says_whiteout (ok st) = is_chardev_whiteout st
stat_says_whiteout (err e) = false

-- The entry may be a character device, and is one with the number (0, 0).
unfoldable pub is_chardev_entry : DataSource → Bytes → DirEntry → Bool
is_chardev_entry ds path entry =
    (entry.dtype == dt_chr || entry.dtype == dt_unknown)
    && stat_says_whiteout (ds.statat (child_path path entry.name) at_symlink_nofollow statx_type)

abbrev dir_mode : Bool → ℕ
dir_mode d = if d then s_ifdir else 0

-- Inode number, device and mode of an entry, from its stat or else from the listing.
abbrev ino_dev_mode : DirEntry → FsResult Stat → ℕ × ℕ × ℕ
ino_dev_mode entry (ok st) = (st.st_ino, st.st_dev, st.st_mode)
ino_dev_mode entry (err e) = (entry.ino, 0, dir_mode (entry.dtype == dt_dir))

abbrev child_node : NodeId → ℕ → DirEntry → ℕ × ℕ × ℕ → OvlNode
child_node parent_id layer_idx entry (ino, dev, mode) =
    record (new_node entry.name layer_idx ino dev (is_dir_mode mode || entry.dtype == dt_dir)) {
      mode = mode;
      last_layer_idx = layer_idx;
      parent = some parent_id;
    }

-- The node of a normal entry.
unfoldable pub entry_node : DataSource → ℕ → NodeId → Bytes → Bool → DirEntry → OvlNode
entry_node ds layer_idx parent_id path fast_ino_check entry = child_node parent_id layer_idx entry (
    if fast_ino_check
    then (entry.ino, 0, dir_mode (entry.dtype == dt_dir))
    else ino_dev_mode entry
        (ds.statat (child_path path entry.name) at_symlink_nofollow statx_type_mode_ino))

-- An entry that no child and no whiteout of a higher layer has decided.
unfoldable pub load_new_entry :
    DataSource → ℕ → NodeId → Bytes → Bool → DirEntry → NodeArena → NodeArena
load_new_entry ds layer_idx parent_id path fast_ino_check entry a =
    if is_wh_file ds path entry.name
    then add_whiteout a parent_id entry.name
    else elim (wh_prefix_name entry.name) [
      | some whited_name ↦ elim (child_of a parent_id whited_name) [
        | some existing ↦ a
        | none ↦ add_whiteout a parent_id whited_name
      ]
      | none ↦
          if is_chardev_entry ds path entry
          then add_whiteout a parent_id entry.name
          else (insert_child_node a parent_id
              (entry_node ds layer_idx parent_id path fast_ino_check entry)).0
    ]

-- The body of the inner loop.
unfoldable pub load_entry :
    DataSource → ℕ → NodeId → Bytes → Bool → DirEntry → NodeArena → NodeArena
unfolding load_new_entry
load_entry ds layer_idx parent_id path fast_ino_check entry a =
    if is_special entry.name then a else elim (child_of a parent_id entry.name) [
      | some existing_id ↦ update_node a existing_id (λ n. record n { last_layer_idx = layer_idx })
      | none ↦
          if whiteout_in a parent_id entry.name
          then a
          else load_new_entry ds layer_idx parent_id path fast_ino_check entry a
    ]

unfoldable pub load_entries :
    DataSource → ℕ → NodeId → Bytes → Bool → List DirEntry → NodeArena → NodeArena
load_entries ds layer_idx parent_id path fast_ino_check [] a = a
load_entries ds layer_idx parent_id path fast_ino_check (entry ∷ rest) a =
    load_entries ds layer_idx parent_id path fast_ino_check rest
      (load_entry ds layer_idx parent_id path fast_ino_check entry a)

-- Whether `stop_lookup` is set at the head of the round for this layer.
abbrev pub stops_at : Option ℕ → ℕ → Bool
stops_at none layer_idx = false
stops_at (some last) layer_idx = last == layer_idx && ltb 0 layer_idx

abbrev pub is_opaque : FsResult Bool → Bool
is_opaque (ok b) = b
is_opaque (err e) = false

-- What the outer loop finds at a layer: `skip` goes on with the next layer (`continue`), `halt`
-- ends the loop (`break`), `listing` has the entries to merge.
pub data LayerDir : Type 0 where
  skip halt : LayerDir
  listing : List DirEntry → LayerDir

abbrev opened : FsResult (List DirEntry) → LayerDir
opened (ok entries) = listing entries
opened (err e) = skip

abbrev after_stat : FsResult Stat → FsResult (List DirEntry) → LayerDir
after_stat (ok st) dir = if is_dir_mode st.st_mode then opened dir else halt
after_stat (err e) dir = if e == enoent || e == enotdir then skip else halt

unfoldable pub layer_dir : DataSource → Bytes → LayerDir
layer_dir ds path = after_stat (ds.statat path at_symlink_nofollow statx_type) (ds.opendir path)

-- One round of the outer loop, where `more` is what the rounds below it do.
abbrev pub load_layer :
    OvlLayer
    → Option ℕ
    → NodeId
    → Bytes
    → Bool
    → ℕ
    → LayerDir
    → (NodeArena → NodeArena)
    → NodeArena
    → NodeArena
load_layer l last_layer_stop parent_id path fast_ino_check layer_idx halt more a = a
load_layer l last_layer_stop parent_id path fast_ino_check layer_idx skip more a =
    if stops_at last_layer_stop layer_idx then a else more a
load_layer l last_layer_stop parent_id path fast_ino_check layer_idx (listing entries) more a =
    let a' = load_entries l.ds layer_idx parent_id path fast_ino_check entries a in
    if stops_at last_layer_stop layer_idx || is_opaque (is_directory_opaque l.ds path)
    then a'
    else more a'

-- The outer loop, from the layer with index `layer_idx` on.
unfoldable pub load_layers :
    Option ℕ → NodeId → Bytes → Bool → ℕ → List OvlLayer → NodeArena → NodeArena
load_layers last_layer_stop parent_id path fast_ino_check layer_idx [] a = a
load_layers last_layer_stop parent_id path fast_ino_check layer_idx (l ∷ rest) a =
    load_layer l last_layer_stop parent_id path fast_ino_check layer_idx (layer_dir l.ds path)
      (λ a'. load_layers last_layer_stop parent_id path fast_ino_check (suc layer_idx) rest a') a

-- `load_dir_impl` on the arena; the rest of the state does not change.
unfoldable pub load_dir_arena :
    List OvlLayer → NodeId → Bytes → Option ℕ → Bool → NodeArena → NodeArena
load_dir_arena layers parent_id path last_layer_stop fast_ino_check a =
    update_node (load_layers last_layer_stop parent_id path fast_ino_check 0 layers a) parent_id
      mark_loaded

unfoldable pub load_dir_impl : OverlayInner → NodeId → Bytes → Option ℕ → Bool → OverlayInner
load_dir_impl s parent_id path last_layer_stop fast_ino_check = record s {
  nodes = load_dir_arena s.layers parent_id path last_layer_stop fast_ino_check s.nodes;
}
