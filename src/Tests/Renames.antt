-- ===== src/Tests/Renames.antt =====
-- Moves and exchanges of names in a tree of two directories and two files.
use fuse_overlayfs.Base.{
  ◌≡◌, refl, ok, [], ◌∷◌, codes, nat_key, bytes_key, bytes_eq, some, true, false,
}
use fuse_overlayfs.Base.Map
use fuse_overlayfs.Datasource.{Bytes}
use fuse_overlayfs.Node.{OvlNode, NodeArena, NodeId, new_node, dir, get_node, get_child, is_dir}
use fuse_overlayfs.Overlay.{child_of}
use fuse_overlayfs.Overlay.Relink.{exchange, move_child}
use fuse_overlayfs.Overlay.Relink.Moved.{IsMoved, move_child-IsMoved}
use fuse_overlayfs.Overlay.Relink.Exchanged.{exchanged, exchange-exchanged}

abbrev root : OvlNode
root = record (new_node [] 0 1 7 true) {
  dir_state = dir ((codes "a", 2) ∷ (codes "b", 3) ∷ []) [] true;
}

abbrev dir_a : OvlNode
dir_a = record (new_node (codes "a") 0 2 7 true) {
  parent = some 1;
  dir_state = dir ((codes "c", 4) ∷ []) [] true;
}

abbrev file_b : OvlNode
file_b = record (new_node (codes "b") 0 3 7 false) { parent = some 1 }

abbrev file_c : OvlNode
file_c = record (new_node (codes "c") 0 4 7 false) { parent = some 2 }

abbrev two_dirs : NodeArena
two_dirs = record {
  map = (1, root) ∷ (2, dir_a) ∷ (3, file_b) ∷ (4, file_c) ∷ [];
  next_id = 5;
  stat_nodes = 4;
}

-- "b" becomes "a/d".
move_child-IsMoved_example :
    IsMoved two_dirs 1 (codes "b") 2 (codes "d") 3 (move_child 1 (codes "b") 2 (codes "d") two_dirs)
unfolding child_of get_node Map.get get_child new_node bytes_eq is_dir
move_child-IsMoved_example = move_child-IsMoved 1 (codes "b") 2 (codes "d") two_dirs 3 refl refl

-- "b" and "a/c" change places.
exchange-exchanged_example :
    ((exchange 1 (codes "b") 2 (codes "c") two_dirs).1 ≡ ok tt)
    × ((q : NodeId) (other : Bytes)
        → child_of (exchange 1 (codes "b") 2 (codes "c") two_dirs).0 q other
          ≡ exchanged 1 (codes "b") 2 (codes "c") two_dirs 3 4 q other)
unfolding child_of get_node Map.get get_child new_node bytes_eq
exchange-exchanged_example =
    exchange-exchanged 1 (codes "b") 2 (codes "c") two_dirs 3 4 file_b file_c refl refl refl refl
      refl
