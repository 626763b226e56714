-- ===== src/Tests/Paths.antt =====
-- Paths in a tree with the root 1, its child 2 named "a" and that one's child 3 named "b".
use fuse_overlayfs.Base.{◌≡◌, ◌≢◌, refl, none, some, [], ◌∷◌, codes, nat_key, false, true}
use fuse_overlayfs.Base.Map
use fuse_overlayfs.Base.Text.{join}
use fuse_overlayfs.Node.{OvlNode, NodeArena, new_node}
use fuse_overlayfs.Node.Path.{compute_path, walk_up, child_path}
use fuse_overlayfs.Node.Path.Depth.{IsAt}
use fuse_overlayfs.Node.Path.Correct.{top_down, render, compute_path-IsAt, compute_path_child}

abbrev root : OvlNode
root = record (new_node [] 0 5 7 true) { parent = none }

abbrev dir_a : OvlNode
dir_a = record (new_node (codes "a") 0 6 7 true) { parent = some 1 }

abbrev file_b : OvlNode
file_b = record (new_node (codes "b") 0 8 7 false) { parent = some 2 }

abbrev pub tree : NodeArena
tree = record { map = (1, root) ∷ (2, dir_a) ∷ (3, file_b) ∷ []; next_id = 4; stat_nodes = 3 }

root-IsAt : IsAt tree.map 1 []
unfolding Map.get
root-IsAt = (root, refl, refl)

pub dir_a-IsAt : IsAt tree.map 2 (codes "a" ∷ [])
unfolding Map.get new_node
dir_a-IsAt = (dir_a, 1, refl, refl, refl, root-IsAt)

path_of_b : compute_path tree 3 ≡ codes "a/b"
unfolding compute_path walk_up Map.get new_node join
path_of_b = refl

compute_path-IsAt_example : compute_path tree 3 ≡ render (top_down (codes "b" ∷ codes "a" ∷ []) [])
unfolding Map.get new_node
compute_path-IsAt_example =
    compute_path-IsAt tree 3 (codes "b" ∷ codes "a" ∷ []) (file_b, 2, refl, refl, refl, dir_a-IsAt)

path_of_a : compute_path tree 2 ≢ codes "."
unfolding compute_path walk_up Map.get new_node join
path_of_a h = cc

compute_path_child_example : compute_path tree 3 ≡ child_path (compute_path tree 2) file_b.name
unfolding Map.get new_node
compute_path_child_example =
    compute_path_child tree 3 2 file_b (codes "a" ∷ []) refl refl dir_a-IsAt (λ h. path_of_a)
