-- ===== src/Overlay/Lookup/Linked.antt =====
-- A look-up of src/overlay.rs that finds a node has put it under its parent.
use fuse_overlayfs.Base.{
  ℕ, suc, ◌≡◌, refl, sym, ap, ◌∙◌, Bool, true, false, Option, none, some, List, [], ◌∷◌, ok, err,
  FsResult, arith, if_both, option_both, bytes_eq_iff,
}
use mathlib.Core.Path.{subst}
use fuse_overlayfs.Datasource.{Bytes, Stat, DataSource, statx_type_mode_ino, at_symlink_nofollow}
use fuse_overlayfs.Layer.{OvlLayer}
use fuse_overlayfs.Node.{NodeId, OvlNode, NodeArena, new_node, insert_node}
use fuse_overlayfs.Node.Path.{child_path, compute_path}
use fuse_overlayfs.Overlay.{
  OverlayInner, child_of, is_wh_file, wh_prefix_name, is_chardev_whiteout, insert_child_node,
}
use fuse_overlayfs.Overlay.Load.{stops_at}
use fuse_overlayfs.Overlay.Load.Writes.{DirAt, child_of-insert_child_node}
use fuse_overlayfs.Overlay.Lookup.{
  Found, is_missing, merge_lower, found_node, lazy_first, lazy_layer, lazy_loop, insert_found,
  finish_lazy, do_lazy_lookup,
}
use fuse_overlayfs.Overlay.Lookup.Agree.{loop-DirAt}

-- The node that is found, if any, has this name.
abbrev IsNamed : Bytes → Option OvlNode → Type 0
IsNamed name none = Unit
IsNamed name (some child) = child.name ≡ name

module _ (last : ℕ) (p : NodeId) (path name : Bytes) where
  abbrev Named : Found → Type 0
  Named found = IsNamed name found.1

  layer-Named :
      (ds : DataSource) (layer_idx : ℕ) (looked : FsResult Stat) (found : Option OvlNode)
      (more : Option OvlNode → Bool → NodeArena → Found) (stop : Bool) (a : NodeArena)
      → IsNamed name found
      → ((found' : Option OvlNode) (stop' : Bool)
          → IsNamed name found'
          → Named (more found' stop' a))
      → Named (lazy_layer ds p path name layer_idx looked found more stop a)
  unfolding lazy_first found_node new_node
  layer-Named ds layer_idx (ok st) (some child) more stop a h keep =
      keep (some (merge_lower child layer_idx st)) stop h
  layer-Named ds layer_idx (err e) (some child) more stop a h keep =
      if_both Named (is_missing e) (λ _. keep (some child) stop h) (λ _. tt)
  layer-Named ds layer_idx (err e) none more stop a h keep =
      if_both Named (is_missing e)
        (λ _. if_both Named (is_wh_file ds path name) (λ _. tt) (λ _. keep none stop tt)) (λ _. tt)
  layer-Named ds layer_idx (ok st) none more stop a h keep =
      if_both Named (is_wh_file ds path name) (λ _. tt)
        (λ _.
          option_both Named (wh_prefix_name name)
            (λ _.
              if_both Named (is_chardev_whiteout st) (λ _. tt)
                (λ _. keep (some (found_node p name layer_idx st)) _ refl))
            (λ w _. tt))

  loop-Named :
      (layer_idx : ℕ) (layers : List OvlLayer) (found : Option OvlNode) (stop : Bool)
      (a : NodeArena)
      → IsNamed name found
      → Named (lazy_loop last p path name layer_idx layers found stop a)
  unfolding lazy_loop
  loop-Named layer_idx [] found stop a h = h
  loop-Named layer_idx (l ∷ rest) found true a h = h
  loop-Named layer_idx (l ∷ rest) found false a h =
      layer-Named l.ds layer_idx
        (l.ds.statat (child_path path name) at_symlink_nofollow statx_type_mode_ino) found _
        (stops_at (some last) layer_idx) a h
        (λ found' stop' k. loop-Named (suc layer_idx) rest found' stop' a k)

-- The node is put under its name.
insert_found-links :
    (s : OverlayInner) (p : NodeId) (child : OvlNode) (k : ℕ) (id : NodeId)
    → DirAt s.nodes p (suc k)
    → (insert_found s p child).1 ≡ some id
    → child_of (insert_found s p child).0.nodes p child.name ≡ some id
unfolding insert_found insert_child_node insert_node
insert_found-links s p child k id d h =
    child_of-insert_child_node d child child.name
    ∙ ground (arith, h, bytes_eq_iff child.name child.name)

finish_lazy-links :
    (s : OverlayInner) (p : NodeId) (name : Bytes) (found : Found) (k : ℕ) (id : NodeId)
    → DirAt found.0 p (suc k)
    → IsNamed name found.1
    → (finish_lazy s p found).1 ≡ some id
    → child_of (finish_lazy s p found).0.nodes p name ≡ some id
finish_lazy-links s p name (a, none) k id d named h = absurd (ground arith)
finish_lazy-links s p name (a, some child) k id d named h =
    ap (λ n. child_of (insert_found (record s { nodes = a }) p child).0.nodes p n) (sym named)
    ∙ insert_found-links (record s { nodes = a }) p child k id d h

do_lazy_lookup_run :
    (s : OverlayInner) (p : NodeId) (name : Bytes) {k : ℕ} (d : DirAt s.nodes p k)
    → ◌≡◌ {A = OverlayInner × Option NodeId} (do_lazy_lookup s p name) (
        finish_lazy s p (
          lazy_loop d.node.last_layer_idx p
            (compute_path s.nodes p)
            name
            0
            s.layers
            none
            false
            s.nodes))
unfolding do_lazy_lookup
do_lazy_lookup_run s p name d = ground (arith, d.at)

-- Where a look-up in the layers finds a node, the node is from then on the parent's child of that
-- name, so that the next look-up finds it there. The parent is a directory of the arena, and an
-- identifier is left.
pub do_lazy_lookup-child_of :
    (s : OverlayInner) (p : NodeId) (name : Bytes) (k : ℕ) (id : NodeId)
    → DirAt s.nodes p (suc k)
    → (do_lazy_lookup s p name).1 ≡ some id
    → child_of (do_lazy_lookup s p name).0.nodes p name ≡ some id
do_lazy_lookup-child_of s p name k id d h =
    let path = compute_path s.nodes p in
    let last = d.node.last_layer_idx in
    let found = lazy_loop last p path name 0 s.layers none false s.nodes in
    let run = do_lazy_lookup_run s p name d in
    subst (λ (r : OverlayInner × Option NodeId). child_of r.0.nodes p name ≡ some id) (sym run)
      (finish_lazy-links s p name found k id (loop-DirAt last p path name 0 s.layers none false d)
        (loop-Named last p path name 0 s.layers none false s.nodes tt)
        (ap (λ (r : OverlayInner × Option NodeId). r.1) (sym run) ∙ h))
