-- ===== src/Overlay/Upper.antt =====
-- What the changing handlers of src/overlay.rs share: `get_node_up`, `hide_node`,
-- `prepare_create_parent`, `stat_and_register_child`, `inherit_acl` and `get_fs_namemax`.
use fuse_overlayfs.Base.{
  ℕ, ◌-◌, Bool, true, false, not, ◌&&◌, ◌||◌, Option, none, some, ok, err, FsResult, ◌==◌, ltb,
  if◌then◌else◌, is_ok, is_empty, get_elem?, enomem, codes,
}
use fuse_overlayfs.Config.{OverlayConfig}
use fuse_overlayfs.Datasource.{Bytes, Stat, at_symlink_nofollow, statx_basic_stats}
use fuse_overlayfs.Direct.{fd_of, statat, getxattr}
use fuse_overlayfs.Layer.Init.{DirectLayer}
use fuse_overlayfs.Node.{NodeId, OvlNode, NodeArena, get_node, update_node, is_dir, mark_unloaded}
use fuse_overlayfs.Node.Path.{child_path}
use fuse_overlayfs.Copyup.{first_layer}
use fuse_overlayfs.Copyup.Files.{copyup}
use fuse_overlayfs.Overlay.{is_dir_mode}
use fuse_overlayfs.Overlay.Lookup.{create_and_register_child}
use fuse_overlayfs.Overlay.Mount.{
  Handler, call, on_process, on_copy, reads, set_nodes, node_path, node_of, next_wd_counter,
  upper_now, first_now, looks, node_of_ino,
}
use fuse_overlayfs.Sys.{Sys, cstr_bytes}
use fuse_overlayfs.Sys.Actions.{pure, raise, lift, gets, attempt, ignore, ◌>>=◌, ◌>>◌}
use fuse_overlayfs.Sys.Openat.{open_parent_safe_cstr}
use fuse_overlayfs.Whiteout.Change.{create_whiteout}

abbrev rename_whiteout : ℕ
rename_whiteout = 4

abbrev acl_xattr : Bytes
acl_xattr = codes "system.posix_acl_default"

-- `last_layer_idx > 0` of the parent, where it has one that is there.
abbrev lower_parent : NodeArena → Option NodeId → Bool
lower_parent a none = false
lower_parent a (some pid) = elim (get_node a pid) [ none ↦ false | some p ↦ ltb 0 p.last_layer_idx ]

unfoldable pub needs_whiteout : NodeArena → OvlNode → Bool
needs_whiteout a node = ltb 0 node.last_layer_idx || lower_parent a node.parent

-- The fields of a node whose file has moved to the work directory under the new name.
unfoldable pub hidden_node : ℕ → Bytes → OvlNode → OvlNode
hidden_node workdir_fd newname n = record n {
  hidden_dirfd = workdir_fd;
  hidden_path = some newname;
  hidden = true;
  do_rmdir = is_dir n || n.do_rmdir;
  do_unlink = not (is_dir n) || n.do_unlink;
}

abbrev unload_parent : Option NodeId → NodeArena → NodeArena
unload_parent none a = a
unload_parent (some pid) a = update_node a pid mark_unloaded

abbrev orphan : OvlNode → OvlNode
orphan n = record n { parent = none }

-- The last part of `hide_node`: the node, its parent's loaded flag, and the node's own link to it.
unfoldable pub set_hidden : ℕ → Bytes → NodeId → OvlNode → NodeArena → NodeArena
set_hidden workdir_fd newname id node a =
    update_node (unload_parent node.parent (update_node a id (hidden_node workdir_fd newname))) id
      orphan

-- A reserve of four bytes for the prefix of whiteout files.
abbrev pub reserve : FsResult ℕ → ℕ
reserve (ok namemax) = if ltb 4 namemax then namemax - 4 else namemax
reserve (err e) = 251

module _ {W : Type 0} (sys : Sys W) where
  unfoldable pub get_fs_namemax : Handler W ℕ
  get_fs_namemax s = elim (first_layer s.layers) [
    | none ↦ (ok 251, s)
    | some l ↦ (attempt (call (sys.fstatvfs_namemax (fd_of l.direct))) >>= λ r. pure (reserve r)) s
  ]

  abbrev up_already : OvlNode → DirectLayer → Bool
  up_already node l = (node.layer_idx == 0) && not l.low

  unfoldable pub copyup_node : ℕ → NodeId → Handler W (Unit {0})
  copyup_node rounds node_id s = on_copy (copyup sys rounds s.layers node_id s.inner.workdir_fd) s

  -- `rounds` bounds the copying loops.
  unfoldable pub get_node_up : ℕ → NodeId → Handler W (Unit {0})
  get_node_up rounds node_id = do
    upper ← upper_now
    node ← node_of node_id
    (if up_already node upper then pure tt else copyup_node rounds node_id)

  -- `renameat2` with RENAME_WHITEOUT, where device nodes can be made.
  unfoldable pub rename_with_whiteout : Bool → ℕ → Bytes → ℕ → Bytes → Handler W Bool
  rename_with_whiteout false src_dirfd c_name workdir_fd newname = pure false
  rename_with_whiteout true src_dirfd c_name workdir_fd newname = do
    r ← attempt (call (sys.renameat2 src_dirfd c_name workdir_fd newname rename_whiteout))
    pure (is_ok r)

  unfoldable pub whiteout_at : ℕ → Option NodeId → Bytes → Bool → Handler W (Unit {0})
  whiteout_at upper_fd none name can_mknod = pure tt
  whiteout_at upper_fd (some pid) name can_mknod = do
    parent_path ← node_path pid
    on_process (create_whiteout sys upper_fd parent_path name can_mknod)

  unfoldable pub move_with_whiteout :
      Bool → ℕ → OvlNode → ℕ → Bytes → ℕ → Bytes → Handler W (Unit {0})
  move_with_whiteout can_mknod upper_fd node src_dirfd c_name workdir_fd newname = do
    moved ← rename_with_whiteout can_mknod src_dirfd c_name workdir_fd newname
    (if moved then pure tt else do
      whiteout_at upper_fd node.parent node.name can_mknod
      call (sys.renameat src_dirfd c_name workdir_fd newname))

  -- The file moves to the work directory, and a whiteout takes its place where a lower layer could
  -- show through.
  unfoldable pub move_aside : ℕ → NodeId → Bytes → Handler W (Unit {0})
  move_aside upper_fd node_id newname = do
    path ← node_path node_id
    node ← node_of node_id
    (src_dirfd, c_name) ← call (open_parent_safe_cstr sys upper_fd path)
    inner ← reads (λ s. s)
    (if needs_whiteout inner.nodes node
        then move_with_whiteout inner.can_mknod upper_fd node src_dirfd c_name inner.workdir_fd
            newname
        else call (sys.renameat src_dirfd c_name inner.workdir_fd newname))

  unfoldable pub hide_node : NodeId → Bool → Handler W (Unit {0})
  hide_node node_id unlink_src = do
    upper ← upper_now
    newname ← next_wd_counter
    c_newname ← lift (cstr_bytes newname)
    (if unlink_src then move_aside (fd_of upper.direct) node_id c_newname else pure tt)
    node ← node_of node_id
    workdir_fd ← reads (λ s. s.workdir_fd)
    set_nodes (set_hidden workdir_fd newname node_id node)

  -- The new file's parent, on the upper layer: its identifier, its path, the descriptor of the upper
  -- layer, and the path of the file.
  unfoldable pub prepare_create_parent : ℕ → ℕ → Bytes → Handler W (NodeId × Bytes × ℕ × Bytes)
  prepare_create_parent rounds parent_ino name = do
    pnode_id ← node_of_ino sys parent_ino
    get_node_up rounds pnode_id
    pnode_path ← node_path pnode_id
    upper ← first_now
    pure (pnode_id, pnode_path, fd_of upper.direct, child_path pnode_path name)

  unfoldable pub registered_or_enomem : Stat → Option (NodeId × ℕ) → Handler W (ℕ × Stat)
  registered_or_enomem st none = raise enomem
  registered_or_enomem st (some (child_id, fuse_ino)) =
      pure (fuse_ino, record st { st_ino = fuse_ino })

  -- The new child's number, and its attributes as a stat with this number.
  unfoldable pub register_child : NodeId → Bytes → Stat → Bool → Handler W (ℕ × Stat)
  register_child pnode_id name st is_dir = do
    made ← looks sys (λ s. create_and_register_child s pnode_id name st is_dir)
    registered_or_enomem st made

  unfoldable pub stat_and_register_child : NodeId → Bytes → Bytes → Handler W (ℕ × Stat)
  stat_and_register_child pnode_id name path = do
    upper ← first_now
    st ← call (statat sys upper.direct path at_symlink_nofollow statx_basic_stats)
    register_child pnode_id name st (is_dir_mode st.st_mode)

  unfoldable pub apply_acl : ℕ → FsResult Bytes → Handler W (Unit {0})
  apply_acl target_fd (err e) = pure tt
  apply_acl target_fd (ok acl) =
      if is_empty acl then pure tt else ignore (call (sys.fsetxattr target_fd acl_xattr acl 0))

  unfoldable pub acl_from : Option DirectLayer → Bytes → ℕ → Handler W (Unit {0})
  acl_from none path target_fd = pure tt
  acl_from (some l) path target_fd = do
    acl ← attempt (call (getxattr sys l.direct path acl_xattr 4096))
    apply_acl target_fd acl

  unfoldable pub acl_of : Option OvlNode → Bytes → ℕ → Handler W (Unit {0})
  acl_of none path target_fd = pure tt
  acl_of (some parent) path target_fd = do
    l ← gets (λ s. get_elem? s.layers parent.layer_idx)
    acl_from l path target_fd

  unfoldable pub inherit_acl : NodeId → ℕ → OverlayConfig → Handler W (Unit {0})
  inherit_acl parent_id target_fd config = if config.noacl then pure tt else do
    parent_path ← node_path parent_id
    parent ← reads (λ s. get_node s.nodes parent_id)
    acl_of parent parent_path target_fd
