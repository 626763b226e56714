-- ===== src/Overlay/Load/Writes.antt =====
-- What the writes of `load_dir_impl` do to the directory that is being loaded.
use fuse_overlayfs.Base.{
  ℕ, suc, ◌+◌, ◌≤◌, ◌<◌, ◌≡◌, ◌∙◌, true, not, ◌&&◌, ◌||◌, some, arith, ◌==◌, if◌then◌else◌,
  bytes_eq,
}
use mathlib.Core.Path.{subst}
use fuse_overlayfs.Datasource.{Bytes}
use fuse_overlayfs.Node.{
  NodeId, OvlNode, NodeArena, u64_mod, is_dir, insert_node, get_node, update_node, insert_child,
  insert_whiteout, get_child, is_whiteout,
}
use fuse_overlayfs.Node.Children.{
  get-update_node, next_id-update_node, get-insert_node, get_child-insert_child,
  is_whiteout-insert_child, is_whiteout-insert_whiteout, get_child-insert_whiteout,
  is_dir-insert_child, is_dir-insert_whiteout,
}
use fuse_overlayfs.Overlay.{child_of, whiteout_in, insert_child_node}
use fuse_overlayfs.Overlay.Load.{add_whiteout}

-- The directory is in the arena, and identifiers for `k` more nodes are left.
pub record DirAt (a : NodeArena) (p : NodeId) (k : ℕ) : Type 0 where
  pub node : OvlNode
  pub at : get_node a p ≡ some node
  pub directory : is_dir node ≡ true
  pub below : p < a.next_id
  pub room : a.next_id + k < u64_mod

pub DirAt-fewer : {a : NodeArena} {p : NodeId} {k : ℕ} → DirAt a p (suc k) → DirAt a p k
DirAt-fewer d = record {
  node = d.node;
  at = d.at;
  directory = d.directory;
  below = d.below;
  room = omega (arith, d.room);
}

pub DirAt_le : {a : NodeArena} {p : NodeId} {j k : ℕ} → DirAt a p k → j ≤ k → DirAt a p j
DirAt_le d h = record {
  node = d.node;
  at = d.at;
  directory = d.directory;
  below = d.below;
  room = omega (arith, d.room, h);
}

pub DirAt-cast : {a : NodeArena} {p : NodeId} {j k : ℕ} → j ≡ k → DirAt a p j → DirAt a p k
DirAt-cast h d = subst (DirAt _ _) h d

module _ {a : NodeArena} {p : NodeId} {k : ℕ} (d : DirAt a p k) where
  -- A write to the directory's own node by a function that leaves it a directory.
  get-update_self : (f : OvlNode → OvlNode) → get_node (update_node a p f) p ≡ some (f d.node)
  get-update_self f = get-update_node a p p f ∙ ground (arith, d.at)

  update_self-DirAt :
      (f : OvlNode → OvlNode) → is_dir (f d.node) ≡ true → DirAt (update_node a p f) p k
  update_self-DirAt f h = record {
    node = f d.node;
    at = get-update_self f;
    directory = h;
    below = rw next_id-update_node d.below;
    room = rw next_id-update_node d.room;
  }

  pub add_whiteout-DirAt : (w : Bytes) → DirAt (add_whiteout a p w) p k
  add_whiteout-DirAt w =
      update_self-DirAt (λ n. insert_whiteout n w) (is_dir-insert_whiteout d.node w ∙ d.directory)

  pub child_of-add_whiteout :
      (w name : Bytes) → child_of (add_whiteout a p w) p name ≡ child_of a p name
  unfolding child_of
  child_of-add_whiteout w name = ground (
    arith,
    get-update_self (λ n. insert_whiteout n w),
    d.at,
    get_child-insert_whiteout d.node w name,
  )

  pub whiteout_in-add_whiteout :
      (w name : Bytes)
      → whiteout_in (add_whiteout a p w) p name ≡ (bytes_eq w name || whiteout_in a p name)
  unfolding whiteout_in
  whiteout_in-add_whiteout w name = ground (
    arith,
    get-update_self (λ n. insert_whiteout n w),
    d.at,
    is_whiteout-insert_whiteout d.node w name d.directory,
  )

-- A write to another node, or one that leaves the state of a directory alone, is not seen.
module _ {a : NodeArena} {p : NodeId} {k : ℕ} (d : DirAt a p k) (id : NodeId) (layer_idx : ℕ) where
  abbrev moved : OvlNode → OvlNode
  moved n = record n { last_layer_idx = layer_idx }

  node_after : OvlNode
  node_after = if id == p then moved d.node else d.node

  get-moved : get_node (update_node a id moved) p ≡ some node_after
  unfolding node_after
  get-moved = get-update_node a id p moved ∙ ground (arith, d.at)

  pub moved-DirAt : DirAt (update_node a id (λ n. record n { last_layer_idx = layer_idx })) p k
  unfolding is_dir node_after
  moved-DirAt = record {
    node = node_after;
    at = get-moved;
    directory = ground (arith, d.directory);
    below = rw next_id-update_node d.below;
    room = rw next_id-update_node d.room;
  }

  pub moved_reads :
      (name : Bytes)
      → (child_of (update_node a id (λ n. record n { last_layer_idx = layer_idx })) p name
          ≡ child_of a p name)
        × (whiteout_in (update_node a id (λ n. record n { last_layer_idx = layer_idx })) p name
            ≡ whiteout_in a p name)
  unfolding child_of whiteout_in get_child is_whiteout node_after
  moved_reads name = (ground (arith, get-moved, d.at), ground (arith, get-moved, d.at))

module _ {a : NodeArena} {p : NodeId} {k : ℕ} (d : DirAt a p (suc k)) (child : OvlNode) where
  abbrev linked : OvlNode → OvlNode
  linked n = (insert_child n child.name a.next_id).1

  -- The next identifier is not the directory's.
  insert_node-DirAt : DirAt (insert_node a child).0 p k
  unfolding insert_node
  insert_node-DirAt = record {
    node = d.node;
    at = get-insert_node a child p ∙ ground (arith, d.at, d.below);
    directory = d.directory;
    below = omega (arith, d.below, d.room);
    room = omega (arith, d.room);
  }

  get-inserted : get_node (insert_child_node a p child).0 p ≡ some (linked d.node)
  unfolding insert_child_node insert_node insert_node-DirAt
  get-inserted = get-update_self insert_node-DirAt linked

  pub insert_child_node-DirAt : DirAt (insert_child_node a p child).0 p k
  unfolding insert_child_node insert_node insert_node-DirAt
  insert_child_node-DirAt =
      update_self-DirAt insert_node-DirAt linked
        (is_dir-insert_child d.node child.name a.next_id ∙ d.directory)

  pub child_of-insert_child_node :
      (name : Bytes)
      → child_of (insert_child_node a p child).0 p name
        ≡ (if bytes_eq child.name name then some a.next_id else child_of a p name)
  unfolding child_of
  child_of-insert_child_node name = ground (
    arith,
    get-inserted,
    d.at,
    get_child-insert_child d.node child.name name a.next_id d.directory,
  )

  pub whiteout_in-insert_child_node :
      (name : Bytes)
      → whiteout_in (insert_child_node a p child).0 p name
        ≡ (not (bytes_eq child.name name) && whiteout_in a p name)
  unfolding whiteout_in
  whiteout_in-insert_child_node name = ground (
    arith,
    get-inserted,
    d.at,
    is_whiteout-insert_child d.node child.name name a.next_id d.directory,
  )
