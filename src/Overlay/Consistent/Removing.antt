-- ===== src/Overlay/Consistent/Removing.antt =====
-- The handlers that remove names keep the inode table consistent. This file uses the
-- names of Overlay/Consistent.antt.
use fuse_overlayfs.Base.{ℕ, Bool, true, false, Option, none, some}
use fuse_overlayfs.Config.{OverlayConfig}
use fuse_overlayfs.Datasource.{Bytes}
use fuse_overlayfs.Node.{NodeId, OvlNode}
use fuse_overlayfs.Overlay.Consistent.{OnInodes, on_copy-Keeps, steady}
use fuse_overlayfs.Overlay.Remove.{existing_node, check_empty, do_rm}
use fuse_overlayfs.Overlay.Upper.{
  copyup_node, get_node_up, rename_with_whiteout, whiteout_at, move_with_whiteout, move_aside,
  hide_node,
}
use fuse_overlayfs.Sys.{Sys}
use fuse_overlayfs.Sys.Rules.{Keeps, Keeps-pure}

module _ {W : Type 0} (sys : Sys W) where
  copyup_node-Keeps : (rounds : ℕ) (id : NodeId) → Keeps OnInodes (copyup_node sys rounds id)
  unfolding copyup_node
  copyup_node-Keeps rounds id = record { at = λ s h. (on_copy-Keeps _).at s h }

  pub get_node_up-Keeps : (rounds : ℕ) (id : NodeId) → Keeps OnInodes (get_node_up sys rounds id)
  unfolding get_node_up
  get_node_up-Keeps rounds id = search (steady, copyup_node-Keeps) depth 10

  pub existing_node-Keeps :
      (parent : ℕ) (name : Bytes) → Keeps OnInodes (existing_node sys parent name)
  unfolding existing_node
  existing_node-Keeps parent name = search steady depth 12

  rename_with_whiteout-Keeps :
      (b : Bool) (d : ℕ) (n : Bytes) (w : ℕ) (m : Bytes)
      → Keeps OnInodes (rename_with_whiteout sys b d n w m)
  unfolding rename_with_whiteout
  rename_with_whiteout-Keeps false d n w m = Keeps-pure false
  rename_with_whiteout-Keeps true d n w m = search steady

  whiteout_at-Keeps :
      (fd : ℕ) (parent : Option NodeId) (name : Bytes) (b : Bool)
      → Keeps OnInodes (whiteout_at sys fd parent name b)
  unfolding whiteout_at
  whiteout_at-Keeps fd none name b = Keeps-pure tt
  whiteout_at-Keeps fd (some pid) name b = search steady

  move_with_whiteout-Keeps :
      (b : Bool) (fd : ℕ) (node : OvlNode) (d : ℕ) (n : Bytes) (w : ℕ) (m : Bytes)
      → Keeps OnInodes (move_with_whiteout sys b fd node d n w m)
  unfolding move_with_whiteout
  move_with_whiteout-Keeps b fd node d n w m =
      search (steady, rename_with_whiteout-Keeps, whiteout_at-Keeps) depth 10

  move_aside-Keeps :
      (fd : ℕ) (id : NodeId) (newname : Bytes) → Keeps OnInodes (move_aside sys fd id newname)
  unfolding move_aside
  move_aside-Keeps fd id newname = search (steady, move_with_whiteout-Keeps) depth 16

  hide_node-Keeps : (id : NodeId) (unlink_src : Bool) → Keeps OnInodes (hide_node sys id unlink_src)
  unfolding hide_node
  hide_node-Keeps id unlink_src = search (steady, move_aside-Keeps) depth 20

  check_empty-Keeps :
      (is_dir : Bool) (id : NodeId) (config : OverlayConfig)
      → Keeps OnInodes (check_empty sys is_dir id config)
  unfolding check_empty
  check_empty-Keeps false id config = Keeps-pure tt
  check_empty-Keeps true id config = search steady depth 12

  pub do_rm-Keeps :
      (rounds parent : ℕ) (name : Bytes) (is_dir : Bool) (config : OverlayConfig)
      → Keeps OnInodes (do_rm sys rounds parent name is_dir config)
  unfolding do_rm
  do_rm-Keeps rounds parent name is_dir config =
      search (steady, existing_node-Keeps, check_empty-Keeps, get_node_up-Keeps, hide_node-Keeps)
        depth 24
